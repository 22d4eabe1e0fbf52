-- ===== src/Process/Tests.antt =====
-- Runs of `Process`.
use kubemonitor.Common.{◌≡◌, none, some, [], ◌∷◌, Text, codes, Map}
use kubemonitor.Common.Int.{ℤ, pos}
use kubemonitor.Value.{int}
use kubemonitor.SafeList.{new_safe_list}
use kubemonitor.SafeList.Fifo.{queue}
use kubemonitor.Sample.{Sample, SampleList, zero_time_value}
use kubemonitor.Process.{process, process_sample}
use kubemonitor.Process.Laws.{process_lem}

abbrev scraped : Sample ℤ
scraped = record {
  metric = codes "up";
  timestamp = zero_time_value;
  value = int (pos 1);
  labels = (codes "instance", codes "h:1") ∷ [];
}

abbrev extra : Map Text
extra = (codes "env", codes "dev") ∷ (codes "instance", codes "x") ∷ []

abbrev listed : SampleList ℤ
listed = record { items = some scraped ∷ none ∷ [] }

process_lem_example :
    (nlst : SampleList ℤ) × (process (pos 70) extra listed ≡ some (nlst, new_safe_list))
    × (queue nlst ≡ some (process_sample (pos 70) extra scraped) ∷ [])
process_lem_example = process_lem (pos 70) extra listed
