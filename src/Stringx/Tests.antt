-- ===== src/Stringx/Tests.antt =====
-- Runs on ASCII.
use kubemonitor.Common.{◌≡◌, refl, ◌&&◌, arith, leb, codes, lower_byte}
use kubemonitor.Stringx.{Unicode, snake_from, snake_case}
use kubemonitor.Stringx.Snake.{IsSane}

abbrev ascii : Unicode
ascii = record {
  is_upper = λ c. leb b'A' c && leb c b'Z';
  is_lower = λ c. leb b'a' c && leb c b'z';
  to_lower = lower_byte;
}

ascii-IsSane : IsSane ascii
unfolding lower_byte
ascii-IsSane = record {
  dot = λ c e. ground arith;
  underscore = λ c e. ground arith;
  not_upper = refl;
  lowered = λ c. ground arith;
}

zookeeper : snake_case ascii (codes "ZooKeeperSession") ≡ codes "zoo_keeper_session"
unfolding snake_case snake_from lower_byte
zookeeper = refl
