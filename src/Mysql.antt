-- ===== src/Mysql.antt =====
-- internal/handlers/mysql: the handler of MySQL. A query is its answer: the database driver is not
-- part of the program.
pub mod Names
pub mod Config
pub mod Rows
pub mod Status
pub mod Variables
pub mod Innodb
pub mod Sizes
pub mod Replica
pub mod Gather
pub mod Pushed
pub mod Scanned
pub mod Engine
pub mod Whole
pub mod Valid
pub mod Setup
pub mod Pools
pub mod Processlist
pub mod States
pub mod Counts
pub mod Binlog
pub mod Files
pub mod Tests
use kubemonitor.Common.{Text, codes}

abbrev pub input_name : Text
input_name = codes "mysql"
