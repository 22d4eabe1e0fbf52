-- ===== src/Toy.antt =====
-- Small instances of the parameters of the models, at which the tests and the witnesses run.
use kubemonitor.Common.{
  ℕ, ◌^◌, false, not, ◌&&◌, none, some, [], ◌∷◌, codes, length, ltb, leb, ◌==◌, if◌then◌else◌,
}
use kubemonitor.Common.Int.{ℤ, pos, negsuc, pos_part, neg_part, quot, ◌+ℤ◌, ◌-ℤ◌, ◌*ℤ◌}
use kubemonitor.Strconv.{parse_int}
use kubemonitor.Value.{Floats}
use kubemonitor.Writer.{Transport, WriterOption}

-- Numbers out of the range of `int64` become 0.
abbrev pub saturate : ℤ → ℤ
saturate i = if ltb (pos_part i) (2 ^ 63) && leb (neg_part i) (2 ^ 63) then i else pos 0

-- Integers for floats.
instance abbrev pub int_floats : Floats ℤ
int_floats = record {
  parse_float = parse_int;
  of_int = λ i. i;
  to_int = saturate;
  add = ◌+ℤ◌;
  sub = ◌-ℤ◌;
  mul = ◌*ℤ◌;
  div = λ a b. quot a (pos_part b);
  is_zero = elim [ pos n ↦ n == 0 | negsuc n ↦ false ];
}

-- A server that takes every request; its clients are numbers.
abbrev pub toy_net : Transport ℕ ℤ
toy_net = record {
  new_client = λ opt. if length opt.url == 0 then none else some 7;
  marshal = λ items. some (length items ∷ []);
  encode = λ bytes. bytes;
  url_is_valid = λ url. not (length url == 0);
  send = λ client request. some 200;
}

-- The same, but no request is answered.
abbrev pub dead_net : Transport ℕ ℤ
dead_net = record toy_net { send = λ client request. none }

abbrev pub toy_option : WriterOption
toy_option = record {
  url = codes "http://n9e";
  basic_auth_user = codes "ann";
  basic_auth_pass = codes "pw";
  headers = codes "X-Scope" ∷ codes "a" ∷ [];
  timeout = pos 5000;
  dial_timeout = pos 2500;
  max_idle_conns_per_host = pos 100;
}
