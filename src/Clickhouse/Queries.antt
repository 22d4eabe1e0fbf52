-- ===== src/Clickhouse/Queries.antt =====
-- The queries of the ClickHouse handler, as the source has them.
use kubemonitor.Common.{◌++◌, Text, codes}

abbrev pub system_events_sql : Text
system_events_sql = codes "SELECT event AS metric, toUInt64(value) AS value FROM system.events"

abbrev pub system_metrics_sql : Text
system_metrics_sql = codes "SELECT          metric, toUInt64(value) AS value FROM system.metrics"

abbrev pub system_async_metrics_sql : Text
system_async_metrics_sql =
    codes "SELECT          metric, toFloat64(value) AS value FROM "
    ++ codes "system.asynchronous_metrics"

abbrev pub system_parts_sql : Text
system_parts_sql =
    codes "\n\t\tSELECT\n\t\t\tdatabase,\n\t\t\ttable,\n\t\t\tSUM(bytes) AS "
    ++ codes "bytes,\n\t\t\tCOUNT(*)   AS parts,\n\t\t\tSUM(rows)  AS rows\n\t\tFROM "
    ++ codes "system.parts\n\t\tWHERE active = 1\n\t\tGROUP BY\n\t\t\tdatabase, table\n\t\t"
    ++ codes "ORDER BY\n\t\t\tdatabase, table\n\t"

abbrev pub system_zookeeper_exists_sql : Text
system_zookeeper_exists_sql =
    codes "SELECT count() AS zk_exists FROM system.tables WHERE database='system' AND "
    ++ codes "name='zookeeper'"

abbrev pub system_zookeeper_root_nodes_sql : Text
system_zookeeper_root_nodes_sql =
    codes "SELECT count() AS zk_root_nodes FROM system.zookeeper WHERE path='/'"

abbrev pub system_replication_exists_sql : Text
system_replication_exists_sql =
    codes "SELECT count() AS replication_queue_exists FROM system.tables WHERE "
    ++ codes "database='system' AND name='replication_queue'"

abbrev pub system_replication_num_tries_sql : Text
system_replication_num_tries_sql =
    codes "SELECT countIf(num_tries>1) AS replication_num_tries_replicas, "
    ++ codes "countIf(num_tries>100) AS replication_too_many_tries_replicas FROM "
    ++ codes "system.replication_queue SETTINGS empty_result_for_aggregation_by_empty_set=0"

abbrev pub system_detached_parts_sql : Text
system_detached_parts_sql =
    codes "SELECT count() AS detached_parts FROM system.detached_parts SETTINGS "
    ++ codes "empty_result_for_aggregation_by_empty_set=0"

abbrev pub system_dictionaries_sql : Text
system_dictionaries_sql = codes "SELECT origin, status, bytes_allocated FROM system.dictionaries"

abbrev pub system_mutation_sql : Text
system_mutation_sql =
    codes "SELECT countIf(latest_fail_time>toDateTime('0000-00-00 00:00:00') AND "
    ++ codes "is_done=0) AS failed, countIf(latest_fail_time=toDateTime('0000-00-00 "
    ++ codes "00:00:00') AND is_done=0) AS running, countIf(is_done=1) AS completed FROM "
    ++ codes "system.mutations SETTINGS empty_result_for_aggregation_by_empty_set=0"

abbrev pub system_disks_sql : Text
system_disks_sql =
    codes "SELECT name, path, toUInt64(100*free_space / total_space) AS "
    ++ codes "free_space_percent, toUInt64( 100 * keep_free_space / total_space) AS "
    ++ codes "keep_free_space_percent FROM system.disks"

abbrev pub system_processes_sql : Text
system_processes_sql =
    codes "SELECT "
    ++ codes
        "multiIf(positionCaseInsensitive(query,'select')=1,'select',positionCaseInsensitive(query,'insert')=1,'insert','other') "
    ++ codes "AS query_type, quantile\n(0.5)(elapsed) AS p50, quantile(0.9)(elapsed) AS "
    ++ codes "p90, max(elapsed) AS longest_running FROM system.processes GROUP BY "
    ++ codes "query_type SETTINGS empty_result_for_aggregation_by_empty_set=0"

abbrev pub system_text_log_exists_sql : Text
system_text_log_exists_sql =
    codes "SELECT count() AS text_log_exists FROM system.tables WHERE database='system' "
    ++ codes "AND name='text_log'"

abbrev pub system_text_log_sql : Text
system_text_log_sql =
    codes "SELECT count() AS messages_last_10_min, level FROM system.text_log WHERE "
    ++ codes "level <= 'Notice' AND event_time >= now() - INTERVAL 600 SECOND GROUP BY "
    ++ codes "level SETTINGS empty_result_for_aggregation_by_empty_set=0"
