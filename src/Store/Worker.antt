-- ===== src/Store/Worker.antt =====
-- The self-destruction worker of store/store.go: fireWarnings, revokeExpired and Run.
use jit_access_broker.Prelude.{
  ℕ, zero, suc, Bool, true, ◌&&◌, ◌||◌, Option, none, some, List, [], ◌∷◌, length, ltb, leb_ℤ,
  ltb_ℤ, if◌then◌else◌, ℤ, pos, Text, codes,
}
use jit_access_broker.Models.{Instant, IssuedToken, sub_time}
use jit_access_broker.Providers.{Context}
use jit_access_broker.Notifier.{Notifier}
use jit_access_broker.Store.{
  Store, Memory, write, expiry, find_live, mark_revoked, call_revoker, noted_revoked,
}
use jit_access_broker.Store.Heap.{pop}

-- The token is due for a warning: live, not warned, and within the window before its expiry.
unfoldable pub is_due : ℤ → Instant → IssuedToken → Bool
is_due window now t =
    if t.revoked || t.notified_expiry
    then Bool.false
    else leb_ℤ (sub_time t.expires_at now) window && ltb_ℤ (pos 0) (sub_time t.expires_at now)

-- One round of the locked loop over the map.
abbrev pub mark_one : ℤ → Instant → ℕ → Memory → Memory
mark_one window now a m =
    if is_due window now (m a) then write m a (record (m a) { notified_expiry = true }) else m

-- The loop marks what is due, and collects the addresses in order.
unfoldable pub mark_due : ℤ → Instant → List (Text × ℕ) → Memory → Memory × List ℕ
mark_due window now [] m = (m, [])
mark_due window now ((id, a) ∷ rest) m =
    let (m', others) = mark_due window now rest (mark_one window now a m) in
    (m', if is_due window now (m a) then a ∷ others else others)

abbrev pub send : {W : Type 0} → Option (Text → W → W) → Text → W → W
send none id w = w
send (some c) id w = c id w

module _ {W : Type 0} where
  abbrev notify_by : Option (Notifier W) → IssuedToken → ℤ → W → W
  notify_by none t left w = w
  notify_by (some n) t left w = (n.notify_expiring t left w).1

  -- The loop after the lock is released; an error of the notifier is only logged.
  unfoldable pub notify_all : Store W → Instant → List ℕ → W → W
  notify_all s now [] w = w
  notify_all s now (a ∷ rest) w =
      let t = s.memory a in
      let left = sub_time t.expires_at now in
      notify_all s now rest (send s.warned_chan t.id (notify_by s.notifier t left w))

  unfoldable pub fire_warnings : Store W → Instant → W → Store W × W
  unfolding is_due mark_due notify_all
  fire_warnings s now w =
      let (m, due) = mark_due s.warning_before now s.tokens s.memory in
      let s' = record s { memory = m } in (s', notify_all s' now due w)

  -- What follows heap.Pop in a round of revokeExpired: the token that the map has under the popped
  -- token's id is revoked, unless it is already. Failures are only logged.
  unfoldable pub expire_one : Store W → Context W → Text → W → Store W × W
  unfolding find_live mark_revoked call_revoker
  expire_one s ctx id w = elim (find_live s id) [
    | none ↦ (s, w)
    | some a ↦
        let s' = mark_revoked s a in
        let (failed, w1) = call_revoker s' ctx (s'.memory a) w in
        (
          s',
          send s.revoked_chan (s'.memory a).id (noted_revoked s' (s'.memory a) (codes "auto") w1),
        )
  ]

  -- The heap after heap.Pop.
  abbrev pub popped : Store W → Store W
  popped s = record s { pq = pop (expiry s.memory) s.pq }

  -- The loop of revokeExpired. Each round takes one entry off the heap, so as many rounds as
  -- entries are enough.
  unfoldable pub expire_loop : ℕ → Store W → Context W → Instant → W → Store W × W
  unfolding expire_one
  expire_loop zero s ctx now w = (s, w)
  expire_loop (suc rounds) s ctx now w = elim s.pq [
    | [] ↦ (s, w)
    | top ∷ others ↦
        if ltb now (s.memory top).expires_at
        then (s, w)
        else let (s', w') = expire_one (popped s) ctx (s.memory top).id w in
          expire_loop rounds s' ctx now w'
  ]

  -- revokeExpired
  unfoldable pub revoke_expired : Store W → Context W → Instant → W → Store W × W
  unfolding expire_loop
  revoke_expired s ctx now w = expire_loop (length s.pq) s ctx now w

  -- A tick of Run.
  unfoldable pub tick : Store W → Context W → Instant → W → Store W × W
  unfolding fire_warnings revoke_expired
  tick s ctx now w = let (s', w') = fire_warnings s now w in revoke_expired s' ctx now w'

  -- Run, on the instants that the ticker sends until the context is cancelled.
  unfoldable pub run : Store W → Context W → List Instant → W → Store W × W
  unfolding tick
  run s ctx [] w = (s, w)
  run s ctx (now ∷ nows) w = let (s', w') = tick s ctx now w in run s' ctx nows w'
