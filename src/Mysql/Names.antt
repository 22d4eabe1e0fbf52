-- ===== src/Mysql/Names.antt =====
-- internal/handlers/mysql/metrics.go: the names of the variables that are pushed. The values of
-- these maps are empty structs.
use kubemonitor.Common.{List, [], ◌∷◌, Text, codes}

abbrev pub status_vars : List Text
status_vars =
    codes "uptime"
    ∷ codes "prepared_stmt_count"
    ∷ codes "slow_queries"
    ∷ codes "questions"
    ∷ codes "queries"
    ∷ codes "com_select"
    ∷ codes "com_insert"
    ∷ codes "com_update"
    ∷ codes "com_delete"
    ∷ codes "com_replace"
    ∷ codes "com_commit"
    ∷ codes "com_rollback"
    ∷ codes "com_load"
    ∷ codes "com_insert_select"
    ∷ codes "com_update_multi"
    ∷ codes "com_delete_multi"
    ∷ codes "com_replace_select"
    ∷ codes "connections"
    ∷ codes "max_used_connections"
    ∷ codes "aborted_clients"
    ∷ codes "aborted_connects"
    ∷ codes "open_files"
    ∷ codes "open_tables"
    ∷ codes "bytes_sent"
    ∷ codes "bytes_received"
    ∷ codes "qcache_hits"
    ∷ codes "qcache_inserts"
    ∷ codes "qcache_lowmem_prunes"
    ∷ codes "table_locks_waited"
    ∷ codes "table_locks_waited_rate"
    ∷ codes "created_tmp_tables"
    ∷ codes "created_tmp_disk_tables"
    ∷ codes "created_tmp_files"
    ∷ codes "threads_connected"
    ∷ codes "threads_running"
    ∷ codes "key_blocks_used"
    ∷ codes "key_blocks_unused"
    ∷ codes "key_blocks_not_flushed"
    ∷ codes "key_read_requests"
    ∷ codes "key_reads"
    ∷ codes "key_write_requests"
    ∷ codes "key_writes"
    ∷ []

abbrev pub variables_vars : List Text
variables_vars =
    codes "key_buffer_size"
    ∷ codes "key_cache_block_size"
    ∷ codes "max_connections"
    ∷ codes "max_prepared_stmt_count"
    ∷ codes "query_cache_size"
    ∷ codes "table_open_cache"
    ∷ codes "thread_cache_size"
    ∷ codes "long_query_time"
    ∷ codes "max_user_connections"
    ∷ codes "read_only"
    ∷ []

abbrev pub innodb_vars : List Text
innodb_vars =
    codes "innodb_buffer_pool_size"
    ∷ codes "open_files_limit"
    ∷ codes "innodb_log_waits"
    ∷ codes "innodb_data_reads"
    ∷ codes "innodb_data_writes"
    ∷ codes "innodb_os_log_fsyncs"
    ∷ codes "innodb_mutex_spin_waits"
    ∷ codes "innodb_mutex_spin_rounds"
    ∷ codes "innodb_mutex_os_waits"
    ∷ codes "innodb_row_lock_waits"
    ∷ codes "innodb_row_lock_time"
    ∷ codes "innodb_row_lock_current_waits"
    ∷ codes "innodb_current_row_locks"
    ∷ codes "innodb_buffer_pool_read_requests"
    ∷ codes "innodb_buffer_pool_reads"
    ∷ []

abbrev pub binlog_vars : List Text
binlog_vars = codes "binlog_space_usage_bytes" ∷ []

abbrev pub optional_status_vars : List Text
optional_status_vars =
    codes "binlog_cache_disk_use"
    ∷ codes "binlog_cache_use"
    ∷ codes "handler_commit"
    ∷ codes "handler_delete"
    ∷ codes "handler_prepare"
    ∷ codes "handler_read_first"
    ∷ codes "handler_read_key"
    ∷ codes "handler_read_next"
    ∷ codes "handler_read_prev"
    ∷ codes "handler_read_rnd"
    ∷ codes "handler_read_rnd_next"
    ∷ codes "handler_rollback"
    ∷ codes "handler_update"
    ∷ codes "handler_write"
    ∷ codes "opened_tables"
    ∷ codes "qcache_total_blocks"
    ∷ codes "qcache_free_blocks"
    ∷ codes "qcache_free_memory"
    ∷ codes "qcache_not_cached"
    ∷ codes "qcache_queries_in_cache"
    ∷ codes "select_full_join"
    ∷ codes "select_full_range_join"
    ∷ codes "select_range"
    ∷ codes "select_range_check"
    ∷ codes "select_scan"
    ∷ codes "sort_merge_passes"
    ∷ codes "sort_range"
    ∷ codes "sort_rows"
    ∷ codes "sort_scan"
    ∷ codes "table_locks_immediate"
    ∷ codes "table_locks_immediate_rate"
    ∷ codes "threads_cached"
    ∷ codes "threads_created"
    ∷ codes "table_open_cache_hits"
    ∷ codes "table_open_cache_misses"
    ∷ []

abbrev pub optional_innodb_vars : List Text
optional_innodb_vars =
    codes "innodb_active_transactions"
    ∷ codes "innodb_buffer_pool_bytes_data"
    ∷ codes "innodb_buffer_pool_pages_data"
    ∷ codes "innodb_buffer_pool_pages_dirty"
    ∷ codes "innodb_buffer_pool_pages_flushed"
    ∷ codes "innodb_buffer_pool_pages_free"
    ∷ codes "innodb_buffer_pool_pages_total"
    ∷ codes "innodb_buffer_pool_read_ahead"
    ∷ codes "innodb_buffer_pool_read_ahead_evicted"
    ∷ codes "innodb_buffer_pool_read_ahead_rnd"
    ∷ codes "innodb_buffer_pool_wait_free"
    ∷ codes "innodb_buffer_pool_write_requests"
    ∷ codes "innodb_checkpoint_age"
    ∷ codes "innodb_current_transactions"
    ∷ codes "innodb_data_fsyncs"
    ∷ codes "innodb_data_pending_fsyncs"
    ∷ codes "innodb_data_pending_reads"
    ∷ codes "innodb_data_pending_writes"
    ∷ codes "innodb_data_read"
    ∷ codes "innodb_data_written"
    ∷ codes "innodb_dblwr_pages_written"
    ∷ codes "innodb_dblwr_writes"
    ∷ codes "innodb_hash_index_cells_total"
    ∷ codes "innodb_hash_index_cells_used"
    ∷ codes "innodb_history_list_length"
    ∷ codes "innodb_ibuf_free_list"
    ∷ codes "innodb_ibuf_merged"
    ∷ codes "innodb_ibuf_merged_delete_marks"
    ∷ codes "innodb_ibuf_merged_deletes"
    ∷ codes "innodb_ibuf_merged_inserts"
    ∷ codes "innodb_ibuf_merges"
    ∷ codes "innodb_ibuf_segment_size"
    ∷ codes "innodb_ibuf_size"
    ∷ codes "innodb_lock_structs"
    ∷ codes "innodb_locked_tables"
    ∷ codes "innodb_locked_transactions"
    ∷ codes "innodb_log_write_requests"
    ∷ codes "innodb_log_writes"
    ∷ codes "innodb_lsn_current"
    ∷ codes "innodb_lsn_flushed"
    ∷ codes "innodb_lsn_last_checkpoint"
    ∷ codes "innodb_mem_adaptive_hash"
    ∷ codes "innodb_mem_additional_pool"
    ∷ codes "innodb_mem_dictionary"
    ∷ codes "innodb_mem_file_system"
    ∷ codes "innodb_mem_lock_system"
    ∷ codes "innodb_mem_page_hash"
    ∷ codes "innodb_mem_recovery_system"
    ∷ codes "innodb_mem_thread_hash"
    ∷ codes "innodb_mem_total"
    ∷ codes "innodb_os_file_fsyncs"
    ∷ codes "innodb_os_file_reads"
    ∷ codes "innodb_os_file_writes"
    ∷ codes "innodb_os_log_pending_fsyncs"
    ∷ codes "innodb_os_log_pending_writes"
    ∷ codes "innodb_os_log_written"
    ∷ codes "innodb_pages_created"
    ∷ codes "innodb_pages_read"
    ∷ codes "innodb_pages_written"
    ∷ codes "innodb_pending_aio_log_ios"
    ∷ codes "innodb_pending_aio_sync_ios"
    ∷ codes "innodb_pending_buffer_pool_flushes"
    ∷ codes "innodb_pending_checkpoint_writes"
    ∷ codes "innodb_pending_ibuf_aio_reads"
    ∷ codes "innodb_pending_log_flushes"
    ∷ codes "innodb_pending_log_writes"
    ∷ codes "innodb_pending_normal_aio_reads"
    ∷ codes "innodb_pending_normal_aio_writes"
    ∷ codes "innodb_queries_inside"
    ∷ codes "innodb_queries_queued"
    ∷ codes "innodb_read_views"
    ∷ codes "innodb_rows_deleted"
    ∷ codes "innodb_rows_inserted"
    ∷ codes "innodb_rows_read"
    ∷ codes "innodb_rows_updated"
    ∷ codes "innodb_s_lock_os_waits"
    ∷ codes "innodb_s_lock_spin_rounds"
    ∷ codes "innodb_s_lock_spin_waits"
    ∷ codes "innodb_semaphore_wait_time"
    ∷ codes "innodb_semaphore_waits"
    ∷ codes "innodb_tables_in_use"
    ∷ codes "innodb_x_lock_os_waits"
    ∷ codes "innodb_x_lock_spin_rounds"
    ∷ codes "innodb_x_lock_spin_waits"
    ∷ []

abbrev pub galera_vars : List Text
galera_vars =
    codes "wsrep_cluster_size"
    ∷ codes "wsrep_local_recv_queue_avg"
    ∷ codes "wsrep_flow_control_paused"
    ∷ codes "wsrep_flow_control_paused_ns"
    ∷ codes "wsrep_flow_control_recv"
    ∷ codes "wsrep_flow_control_sent"
    ∷ codes "wsrep_cert_deps_distance"
    ∷ codes "wsrep_local_send_queue_avg"
    ∷ codes "wsrep_replicated_bytes"
    ∷ codes "wsrep_received_bytes"
    ∷ codes "wsrep_received"
    ∷ codes "wsrep_local_state"
    ∷ codes "wsrep_local_cert_failures"
    ∷ []

abbrev pub performance_vars : List Text
performance_vars = codes "query_run_time_avg" ∷ codes "perf_digest_95th_percentile_avg_us" ∷ []

abbrev pub schema_vars : List Text
schema_vars = codes "information_schema_size" ∷ []

abbrev pub table_vars : List Text
table_vars = codes "information_table_index_size" ∷ codes "information_table_data_size" ∷ []

abbrev pub replica_vars : List Text
replica_vars =
    codes "seconds_behind_source"
    ∷ codes "seconds_behind_master"
    ∷ codes "slave_io_running"
    ∷ codes "slave_sql_running"
    ∷ codes "master_server_id"
    ∷ codes "source_server_id"
    ∷ codes "sql_delay"
    ∷ codes "exec_master_log_pos"
    ∷ codes "read_master_log_pos"
    ∷ []

abbrev pub group_replication_vars : List Text
group_replication_vars =
    codes "transactions_count"
    ∷ codes "transactions_check"
    ∷ codes "conflict_detected"
    ∷ codes "transactions_row_validating"
    ∷ codes "transactions_remote_applier_queue"
    ∷ codes "transactions_remote_applied"
    ∷ codes "transactions_local_proposed"
    ∷ codes "transactions_local_rollback"
    ∷ []

abbrev pub synthetic_vars : List Text
synthetic_vars = codes "qcache_utilization" ∷ codes "qcache_instant_utilization" ∷ []
