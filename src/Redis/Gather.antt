-- ===== src/Redis/Gather.antt =====
-- The answer of `INFO`, the configured commands, and `Gather`. The server is the
-- parameter `Client`; the times that are read are a `Clock`.
use kubemonitor.Common.{
  Bool, Option, none, some, List, [], ◌∷◌, ◌==◌, if◌then◌else◌, length, Text, codes, split, Map,
  insert,
}
use kubemonitor.Common.Int.{ℤ, pos}
use kubemonitor.Value.{Floats, Value, float64, int}
use kubemonitor.Conv
use kubemonitor.Conv.{wrap_int}
use kubemonitor.Sample.{SampleList, push_sample}
use kubemonitor.Writer.{Outcome, ok, failed, panicked}
use kubemonitor.Redis.{Command, Instance, input_name, push_fields}
use kubemonitor.Redis.Lines.{scan_lines, Info, info_lines, hitrate}

-- The answers of the server; `none` is an error.
pub record Client (F : Type 0) : Type 0 where
  pub ping : Bool
  pub info_all : Option Text
  pub info : Option Text
  pub exec : List Text → Option (Value F)

-- `time.Since(begun).Seconds()` behind the ping and at the end, and `time.Now().Unix()`.
pub record Clock (F : Type 0) : Type 0 where
  pub ping_use : F
  pub scrape_use : F
  pub now : ℤ

module _ {F : Type 0} ⦃fl : Floats F⦄ where
  -- `Info ALL`, or `Info` if that fails or is empty.
  unfoldable pub fetch_info : Client F → Option Text
  fetch_info client = elim client.info_all [
    | none ↦ client.info
    | some [] ↦ client.info
    | some (c ∷ info) ↦ some (c ∷ info)
  ]

  -- The samples of the fields, behind the loop.
  unfoldable pub push_info : Info F → SampleList F × Map Text
  push_info st = (
    push_fields []
        (insert (codes "keyspace_hitrate") (float64 (hitrate st.keyspace_hits st.keyspace_misses))
          st.fields)
        st.tags st.slist,
    st.tags,
  )

  -- With the tags as they are left; `none` is a panic.
  unfoldable pub gather_info_all :
      Client F → ℤ → SampleList F → Map Text → Option (SampleList F × Map Text)
  gather_info_all client now slist tags = elim (fetch_info client) [
    | none ↦ some (slist, tags)
    | some info ↦
        elim (info_lines now (scan_lines (split info 10)) (record {
          section = [];
          keyspace_hits = pos 0;
          keyspace_misses = pos 0;
          fields = [];
          tags = tags;
          slist = slist;
        })) [ none ↦ none | some st ↦ some (push_info st) ]
  ]

  -- One command: an error, an empty metric or a result that is no number is passed over.
  unfoldable pub command_value : Client F → Command → Map (Value F) → Map (Value F)
  command_value client cmd fields = elim (client.exec cmd.command) [
    | none ↦ fields
    | some val ↦ if length cmd.metric == 0 then fields else elim (Conv.to_float64 val) [
      | none ↦ fields
      | some fval ↦ insert cmd.metric (float64 fval) fields
    ]
  ]

  unfoldable pub command_values : Client F → List Command → Map (Value F) → Map (Value F)
  command_values client [] fields = fields
  command_values client (cmd ∷ commands) fields =
      command_values client commands (command_value client cmd fields)

  unfoldable pub gather_command_values :
      Client F → List Command → SampleList F → Map Text → SampleList F
  gather_command_values client commands slist tags =
      push_fields (codes "exec_result_") (command_values client commands []) tags slist

  unfoldable pub push_tagged : Text → Value F → Map Text → SampleList F → SampleList F
  push_tagged metric v tags slist = push_sample input_name metric v (tags ∷ []) slist

  -- The pushes that end `Gather`: the deferred function comes last, with the tags as they then are.
  unfoldable pub push_scraped : Clock F → Map Text → SampleList F → SampleList F
  push_scraped clock tags slist =
      push_tagged (codes "scrape_use_seconds") (float64 clock.scrape_use) tags slist

  -- `Gather` behind a ping that was answered, on the list as it then is; a panic ends the program.
  unfoldable pub gather_answered :
      Instance → Client F → Clock F → Map Text → SampleList F → Outcome × SampleList F
  gather_answered ins client clock tags slist = elim (gather_info_all client clock.now slist tags) [
    | none ↦ (panicked, slist)
    | some (infos, tags') ↦
        (ok, push_scraped clock tags' (gather_command_values client ins.commands infos tags'))
  ]

  -- `Gather`.
  unfoldable pub gather : Instance → Client F → Clock F → SampleList F → Outcome × SampleList F
  gather ins client clock slist =
      let tags = (codes "address", ins.address) ∷ [] in
      let pinged = push_tagged (codes "ping_use_seconds") (float64 clock.ping_use) tags slist in
      if client.ping
      then gather_answered ins client clock tags
          (push_tagged (codes "up") (int (pos 1)) tags pinged)
      else (failed, push_scraped clock tags (push_tagged (codes "up") (int (pos 0)) tags pinged))
