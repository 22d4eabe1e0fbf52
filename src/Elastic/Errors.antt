-- ===== src/Elastic/Errors.antt =====
-- The errors that the goroutines of `Gather` send, and what becomes of them.
use kubemonitor.Common.{
  ℕ, suc, ◌+◌, ◌≤◌, ◌≡◌, refl, false, [], ◌⊎◌, inl, inr, not, List, ◌∷◌, arith, if◌then◌else◌,
  length, Text,
}
use kubemonitor.Writer.{ok, failed, panicked}
use kubemonitor.Goroutines.{flatten, in_turn, count, total, Interleave-count}
use kubemonitor.Elastic.{Instance}
use kubemonitor.Elastic.Requests.{Server}
use kubemonitor.Elastic.Gather.{
  Action, actions_of, is_send, is_crash, send_waits, error_room, Trace, whole, IsTrace,
  round_outcome, info_goroutine, info_goroutines, gather_server, stats_goroutines,
}
use kubemonitor.Elastic.Rounds.{is_up, info_goroutine_cases}
use kubemonitor.Elastic.Ends.{
  is_failed, is_panicked, sends-actions_of, crashes-actions_of, total-count, count-le, races,
}

few_sends_fit :
    {F : Type 0} (room buffered : ℕ) (actions : List (Action F))
    → buffered + count is_send actions ≤ room
    → send_waits room buffered actions ≡ false
unfolding send_waits
few_sends_fit room buffered [] h = refl
few_sends_fit room buffered (a ∷ actions) h =
    ground (arith, few_sends_fit room (suc buffered) actions, few_sends_fit room buffered actions)

module _ {B F : Type 0} (server : Server B F) where
  info-sends :
      (ins : Instance) (s : Text)
      → count is_send (info_goroutine server ins s) ≡ (if is_up server ins s then 0 else 1)
  info-sends ins s = elim (info_goroutine_cases server ins s) [
    | inl (down, e) ↦ rw (e, down)
    | inr (info, up, e) ↦ rw (e, up)
  ]

  -- The channel of each round has room for one error of each server.
  few_sends :
      (ins : Instance)
      → (total is_send (info_goroutines server ins) ≤ length ins.servers)
        × (total is_send (stats_goroutines server ins) ≤ length ins.servers)
  few_sends ins = (
    omega (
      arith,
      total-count is_send (λ s. not (is_up server ins s)) (info_goroutine server ins) ins.servers
          (λ s. ground (arith, info-sends ins s)),
      count-le (λ s. not (is_up server ins s)) ins.servers,
    ),
    omega (
      arith,
      total-count is_send (λ s. is_failed (gather_server server ins s).0)
          (λ s. actions_of (gather_server server ins s)) ins.servers
          (λ s. sends-actions_of (gather_server server ins s)),
      count-le (λ s. is_failed (gather_server server ins s).0) ins.servers,
    ),
  )

  -- No goroutine of a round ever waits for room in the error channel, whatever the order of the
  -- goroutines and even if nobody receives: at each send the channel, with its capacity of one error
  -- for each server, is not full.
  pub send_waits-error_room :
      (ins : Instance) (t : Trace F)
      → IsTrace (info_goroutines server ins) t ⊎ IsTrace (stats_goroutines server ins) t
      → send_waits (error_room ins) 0 (whole t) ≡ false
  unfolding error_room
  send_waits-error_room ins t (inl trace) =
      few_sends_fit (error_room ins) 0 (whole t)
        (omega (arith, Interleave-count is_send trace, few_sends ins))
  send_waits-error_room ins t (inr trace) =
      few_sends_fit (error_room ins) 0 (whole t)
        (omega (arith, Interleave-count is_send trace, few_sends ins))

  sent :
      (ins : Instance)
      → 2 ≤ count (λ s. is_failed (gather_server server ins s).0) ins.servers
      → 2 ≤ count is_send (flatten (stats_goroutines server ins))
  sent ins two = omega (
    arith,
    Interleave-count is_send (in_turn (stats_goroutines server ins)),
    total-count is_send (λ s. is_failed (gather_server server ins s).0)
        (λ s. actions_of (gather_server server ins s)) ins.servers
        (λ s. sends-actions_of (gather_server server ins s)),
  )

  no_crash :
      (ins : Instance)
      → count (λ s. is_panicked (gather_server server ins s).0) ins.servers ≡ 0
      → total is_crash (stats_goroutines server ins) ≡ 0
  no_crash ins sound = omega (
    arith,
    total-count is_crash (λ s. is_panicked (gather_server server ins s).0)
        (λ s. actions_of (gather_server server ins s)) ins.servers
        (λ s. crashes-actions_of (gather_server server ins s)),
  )

  -- When two servers or more fail in the second round and none panics, the same answers let
  -- `Gather` end in each way: it returns nil and the errors are lost, it returns an error, or it
  -- panics at a send on the closed channel. It is the order of the goroutines that decides.
  pub errors_race :
      (ins : Instance)
      → count (λ s. is_panicked (gather_server server ins s).0) ins.servers ≡ 0
      → 2 ≤ count (λ s. is_failed (gather_server server ins s).0) ins.servers
      → (lost : Trace F) × (seen : Trace F) × (late : Trace F) × (IsTrace
            (stats_goroutines server ins)
            lost
          × (round_outcome lost ≡ ok))
        × (IsTrace (stats_goroutines server ins) seen × (round_outcome seen ≡ failed))
        × IsTrace (stats_goroutines server ins) late
        × (round_outcome late ≡ panicked)
  errors_race ins sound two =
      races (stats_goroutines server ins) (sent ins two) (no_crash ins sound)
