-- ===== src/Writer/Tests.antt =====
-- Runs of one writer.
use kubemonitor.Common.{ℕ, ◌≡◌, ◌≢◌, ◌↔◌, refl, none, some, List, [], ◌∷◌, codes, text_eq, lookup}
use kubemonitor.Common.Int.{ℤ, pos}
use kubemonitor.Sample.{TimeSeries}
use kubemonitor.Http.{canonical_key, header_add, basic_auth}
use kubemonitor.Writer.{
  Request, Writer, ok, failed, panicked, fixed_headers, authorize, add_headers, prepare, post,
  write,
}
use kubemonitor.Writer.Post.{write_outcome}
use kubemonitor.Writer.Requests.{Pairs, Holds, prepare-prepared}
use kubemonitor.Toy.{toy_net, dead_net, toy_option}

abbrev series : List (TimeSeries ℤ)
series = record { labels = (codes "__name__", codes "up") ∷ []; samples = (pos 1, pos 2) ∷ [] } ∷ []

abbrev writer : Writer ℕ
writer = record { opts = toy_option; client = 7 }

-- The post cannot be sent, and the write is a success.
dead_write : write dead_net writer series ≡ ok
unfolding write post prepare add_headers authorize
dead_write = refl

write_outcome_example :
    (write dead_net writer series ≢ panicked)
    × ((write dead_net writer series ≡ failed) ↔ ((series ≢ []) × (dead_net.marshal series ≡ none)))
write_outcome_example = write_outcome dead_net writer series tt

abbrev odd_writer : Writer ℕ
odd_writer = record { opts = record toy_option { headers = codes "Host" ∷ [] }; client = 7 }

abbrev sent : Request
sent = authorize toy_option (record {
  url = toy_option.url;
  body = codes "x";
  header = header_add (codes "X-Scope") (codes "a") fixed_headers;
  host = none;
})

prepare-prepared_example :
    (sent.url ≡ toy_option.url)
    × (sent.body ≡ codes "x")
    × Pairs
        (λ k v. canonical_key k ≢ codes "Authorization" → Holds k v sent.header)
        toy_option.headers
    × (toy_option.basic_auth_user ≢ []
        → lookup (codes "Authorization") sent.header
          ≡ some (basic_auth (codes "ann") (codes "pw") ∷ []))
unfolding prepare add_headers text_eq
prepare-prepared_example = prepare-prepared toy_net toy_option (codes "x") sent refl
