-- ===== src/Stream/Gaps.antt =====
-- A stream delivers a job's events one by one, with none missing and none twice.
mod Reads
pub use Reads.*
use fineract_ai_backend.Prelude.{
  ℕ, zero, suc, ◌+◌, ◌≡◌, ◌≤◌, ◌<◌, refl, Bool, true, false, Option, none, some, List, [], ◌∷◌,
  ◌++◌, arith, ltb, where_rows, if-cases, subst, sym, ap, ◌∙◌, Bool-cases, inl, inr,
}
use fineract_ai_backend.Store.Rows.{JobEvent}
use fineract_ai_backend.Protocol.Gapless.{Numbered}
use fineract_ai_backend.Stream.{
  Stream, sent, ended, again, after, take, Round, extend, keep, read_round, round_with, fill, idle,
  next_round, play,
}

-- The frames that wait to be sent go on from the cursor.
abbrev pub IsSound : Stream → Type 0
IsSound s = (m : ℕ) × Numbered s.cursor s.pending m

-- The log that a round reads has no gap; a round whose read fails reads none.
abbrev pub IsReadable : Option (List JobEvent) → Type 0
IsReadable none = Unit
IsReadable (some events) = (last : ℕ) × Numbered 0 events last

extend-IsSound :
    (events : List JobEvent) (s : Stream)
    → s.pending ≡ []
    → (m : ℕ) × Numbered s.cursor events m
    → IsSound (extend events s).0
extend-IsSound [] s idle_ h = (s.cursor, rw idle_ refl)
extend-IsSound (e ∷ es) s idle_ h = rw idle_ h

fill-IsSound :
    (events : Option (List JobEvent)) (s : Stream)
    → s.pending ≡ []
    → IsReadable events
    → IsSound (fill events s).0
unfolding fill
fill-IsSound none s empty h = (s.cursor, rw empty refl)
fill-IsSound (some events) s empty h =
    extend-IsSound _ s empty (after-Numbered s.cursor s.buffer_frames events h.0 h.1)

-- Neither reading nor waiting moves the cursor.
extend-cursor : (events : List JobEvent) (s : Stream) → (extend events s).0.cursor ≡ s.cursor
extend-cursor [] s = refl
extend-cursor (e ∷ es) s = refl

fill-cursor : (events : Option (List JobEvent)) (s : Stream) → (fill events s).0.cursor ≡ s.cursor
unfolding fill
fill-cursor none s = refl
fill-cursor (some events) s = extend-cursor _ s

idle-IsSound : (notified : Bool) (s : Stream) → IsSound s → IsSound (idle notified s)
unfolding idle
idle-IsSound true s h = h
idle-IsSound false s h = h

idle-cursor : (notified : Bool) (s : Stream) → (idle notified s).cursor ≡ s.cursor
unfolding idle
idle-cursor true s = refl
idle-cursor false s = refl

-- A round sends at most the event after the cursor, and the stream stays sound.
abbrev Advances : Stream → Stream × Round → Type 0
Advances s next = IsSound next.0 × Numbered s.cursor (keep next.1 []) next.0.cursor

read_round-Advances :
    (events : Option (List JobEvent)) (notified : Bool) (s : Stream)
    → s.pending ≡ []
    → IsReadable events
    → Advances s (read_round events notified s)
unfolding read_round
read_round-Advances events notified s empty ok =
    if-cases (λ x. Advances s x) s.finished (λ _. ((s.cursor, rw empty refl), refl))
      (λ _.
        if-cases (λ (x : Stream). IsSound x × (s.cursor ≡ x.cursor)) (fill events s).1
          (λ _. (fill-IsSound events s empty ok, sym (fill-cursor events s)))
          (λ _. (
            idle-IsSound notified _ (fill-IsSound events s empty ok),
            sym (idle-cursor notified _ ∙ fill-cursor events s),
          )))

round_with-Advances :
    (events : Option (List JobEvent)) (notified : Bool) (s : Stream) (l : List JobEvent)
    → s.pending ≡ l
    → IsReadable events
    → (m : ℕ) × Numbered s.cursor l m
    → Advances s (round_with events notified l s)
round_with-Advances events notified s [] empty ok h = read_round-Advances events notified s empty ok
round_with-Advances events notified s (e ∷ es) waits ok h =
    ((h.0, subst (λ k. Numbered k es h.0) (sym h.1.0) h.1.1), (h.1.0, sym h.1.0))

next_round-Advances :
    (events : Option (List JobEvent)) (notified : Bool) (s : Stream)
    → IsReadable events
    → IsSound s
    → Advances s (next_round events notified s)
unfolding next_round
next_round-Advances events notified s ok h =
    round_with-Advances events notified s s.pending refl ok h

-- Every read of the rounds finds a log without a gap.
abbrev pub AreReadable : List (Option (List JobEvent) × Bool) → Type 0
AreReadable [] = Unit
AreReadable (round ∷ rounds) = IsReadable round.0 × AreReadable rounds

keep-Numbered :
    (round : Round) (first middle last : ℕ) (es : List JobEvent)
    → Numbered first (keep round []) middle
    → Numbered middle es last
    → Numbered first (keep round es) last
keep-Numbered (sent e) first middle last es h k = (h.0, subst (λ x. Numbered x es last) (sym h.1) k)
keep-Numbered ended first middle last es h k = subst (λ x. Numbered x es last) (sym h) k
keep-Numbered again first middle last es h k = subst (λ x. Numbered x es last) (sym h) k

-- A stream whose waiting frames go on from its cursor, whatever logs without a gap it reads,
-- whichever of its reads fail and whichever notifications are lost, sends frames that carry the
-- sequences right after its cursor, in order, with none missing and none twice, and its cursor ends
-- at the last one.
pub play-Numbered :
    (rounds : List (Option (List JobEvent) × Bool)) (s : Stream)
    → AreReadable rounds
    → IsSound s
    → Numbered s.cursor (play rounds s).0 (play rounds s).1.cursor
unfolding play
play-Numbered [] s ok h = refl
play-Numbered ((events, notified) ∷ rounds) s ok h =
    let moved = next_round-Advances events notified s ok.0 h in
    keep-Numbered _ _ _ _ _ moved.1 (play-Numbered rounds _ ok.1 moved.0)

where_found :
    (first cursor : ℕ) (es : List JobEvent) (last : ℕ)
    → Numbered first es last
    → first ≤ cursor
    → cursor < last
    → (e : JobEvent) × (l : List JobEvent) × (where_rows (λ x. ltb cursor x.sequence) es ≡ e ∷ l)
where_found first cursor [] last h le behind = absurd (omega (arith, h))
where_found first cursor (e ∷ es) last h le behind = elim (Bool-cases (ltb cursor e.sequence)) [
  | inl beyond ↦ rw beyond (e, where_rows (λ x. ltb cursor x.sequence) es, refl)
  | inr passed ↦ rw passed (
      where_found (first + 1) cursor es last h.1
        (omega (arith, ltb-false cursor e.sequence passed, h.0)) behind)
]

take_found :
    (limit : ℕ) (l es : List JobEvent) (e : JobEvent)
    → 0 < limit
    → l ≡ e ∷ es
    → (rest : List JobEvent) × (take limit l ≡ e ∷ rest)
take_found zero l es e room p = absurd (omega arith)
take_found (suc limit) l es e room p = (take limit es, ap (take (suc limit)) p)

after_found :
    (cursor limit : ℕ) (events : List JobEvent) (last : ℕ)
    → Numbered 0 events last
    → cursor < last
    → 0 < limit
    → (e : JobEvent) × (rest : List JobEvent) × (after cursor limit events ≡ e ∷ rest)
unfolding after
after_found cursor limit events last h behind room =
    let found = where_found 0 cursor events last h (omega arith) behind in
    let taken = take_found limit _ found.1 found.0 room found.2 in (found.0, taken.0, taken.1)

read_round-found :
    (s : Stream) (events es : List JobEvent) (e : JobEvent) (notified : Bool)
    → s.pending ≡ []
    → s.finished ≡ false
    → after s.cursor s.buffer_frames events ≡ e ∷ es
    → (read_round (some events) notified s).0.pending ≡ e ∷ es
unfolding read_round fill
read_round-found s events es e notified empty live found =
    rw live (rw found (ap (λ l. l ++ e ∷ es) empty))

next_round-found :
    (s : Stream) (events es : List JobEvent) (e : JobEvent) (notified : Bool)
    → s.pending ≡ []
    → s.finished ≡ false
    → after s.cursor s.buffer_frames events ≡ e ∷ es
    → (next_round (some events) notified s).0.pending ≡ e ∷ es
unfolding next_round
next_round-found s events es e notified empty live found =
    ap (λ l. (round_with (some events) notified l s).0.pending) empty
    ∙ read_round-found s events es e notified empty live found

next_round-sends :
    (events : Option (List JobEvent)) (notified : Bool) (s : Stream) (e : JobEvent)
    (es : List JobEvent)
    → s.pending ≡ e ∷ es
    → (next_round events notified s).1 ≡ sent e
unfolding next_round
next_round-sends events notified s e es p = ap (λ l. (round_with events notified l s).1) p

-- A job whose log has an event after the cursor, a buffer of at least one frame, and a stream that
-- is not finished and has nothing to send: one round that reads, and the next sends that event.
pub read_then_sent :
    (s : Stream) (events : List JobEvent) (last : ℕ) (notified : Bool)
    (later : Option (List JobEvent)) (notified' : Bool)
    → Numbered 0 events last
    → s.cursor < last
    → 0 < s.buffer_frames
    → s.pending ≡ []
    → s.finished ≡ false
    → (e : JobEvent) × (e.sequence ≡ s.cursor + 1)
      × ((next_round later notified' (next_round (some events) notified s).0).1 ≡ sent e)
read_then_sent s events last notified later notified' h behind room empty live =
    let found = after_found s.cursor s.buffer_frames events last h behind room in
    let read = after-Numbered s.cursor s.buffer_frames events last h in
    (
      found.0,
      (subst (λ l. Numbered s.cursor l read.0) found.2 read.1).0,
      next_round-sends later notified' _ found.0 found.1
          (next_round-found s events found.1 found.0 notified empty live found.2),
    )
