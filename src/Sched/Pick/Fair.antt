-- ===== src/Sched/Pick/Fair.antt =====
-- The picks are fair: no queue that stays ready is passed over for a whole round of the pattern.
use capaz_os_kernel.Common.{
  ℕ, zero, suc, ◌+◌, ◌-◌, ◌%◌, ◌≤◌, ◌<◌, ◌≡◌, ◌≢◌, ◌⊎◌, refl, sym, ◌∙◌, subst, inl, inr, true,
  Bool-cases, arith, List, [], ◌∷◌, length, some, ◌==◌, ap, ==_iff,
}
use capaz_os_kernel.Sched.Intent.{
  Intent, interactive, latency, throughput, background, intent_index,
}
use capaz_os_kernel.Sched.Pick.{pattern_len, pick_pattern, scan_pattern, pick_intent}

-- Where the pattern first names an intent.
abbrev position : Intent → ℕ
position interactive = 0
position latency = 6
position throughput = 10
position background = 12

pattern-position : (i : Intent) → pick_pattern (position i) ≡ i
unfolding pick_pattern
pattern-position interactive = refl
pattern-position latency = refl
pattern-position throughput = refl
pattern-position background = refl

position-lt : (i : Intent) → position i < pattern_len
position-lt interactive = omega arith
position-lt _ = omega arith

-- How far the cursor is from a position.
abbrev ahead : ℕ → ℕ → ℕ
ahead cursor j = (j + pattern_len - cursor) % pattern_len

-- The tail of the queue that the loop looks at in round k.
abbrev seen : (ℕ → ℕ) → ℕ → ℕ → ℕ
seen tails cursor k = tails (intent_index (pick_pattern ((cursor + k) % pattern_len)))

-- The loop stops at the first ready queue, no later than at one that is known to be ready.
scan_lem :
    (tails : ℕ → ℕ) (cursor n i d : ℕ)
    → i + n ≡ pattern_len
    → i ≤ d
    → d < pattern_len
    → seen tails cursor d ≢ 0
    → (k : ℕ) × (k ≤ d)
      × (scan_pattern tails cursor n i ≡ some ((cursor + k) % pattern_len))
      × (seen tails cursor k ≢ 0)
unfolding scan_pattern
scan_lem tails cursor zero i d e le lt r = absurd (omega arith)
scan_lem tails cursor (suc n) i d e le lt r = elim (Bool-cases (seen tails cursor i == 0)) [
  | inr busy ↦ (i, le, rw busy, ground arith)
  | inl idle ↦
      let past = not_here i d idle r in
      let (k, kle, found, busy) =
        scan_lem tails cursor n (suc i) d (omega arith) (omega arith) lt r in
      (k, kle, rw idle found, busy)
]
  where
    not_here : (i d : ℕ) → (seen tails cursor i == 0) ≡ true → seen tails cursor d ≢ 0 → i ≢ d
    not_here i d idle r same = r (subst (λ x. seen tails cursor x ≡ 0) same ((==_iff _ 0).0 idle))

ahead_lem :
    (cursor j : ℕ)
    → cursor < pattern_len
    → j < pattern_len
    → (ahead cursor j < pattern_len) × ((cursor + ahead cursor j) % pattern_len ≡ j)
ahead_lem cursor j hc hj = omega arith

-- What one pick does while the queue of intent i is ready: it picks i, or the cursor comes nearer to
-- i's place in the pattern.
record Progress (tails : ℕ → ℕ) (cursor : ℕ) (i : Intent) (r : Intent × ℕ) : Type 0 where
  picked_ready : tails (intent_index r.0) ≢ 0
  in_range : r.1 < pattern_len
  nearer : (r.0 ≡ i) ⊎ (ahead r.1 (position i) < ahead cursor (position i))

pick_found :
    (tails : ℕ → ℕ) (cursor idx : ℕ)
    → scan_pattern tails cursor pattern_len 0 ≡ some idx
    → pick_intent tails cursor ≡ (pick_pattern idx, (idx + 1) % pattern_len)
unfolding pick_intent
pick_found tails cursor idx e = rw (e, pick_intent)

nearer_lem :
    (cursor j k : ℕ)
    → cursor < pattern_len
    → j < pattern_len
    → k < ahead cursor j
    → ahead (((cursor + k) % pattern_len + 1) % pattern_len) j < ahead cursor j
nearer_lem cursor j k hc hj hk = omega arith

pick-Progress :
    (tails : ℕ → ℕ) (cursor : ℕ) (i : Intent)
    → cursor < pattern_len
    → tails (intent_index i) ≢ 0
    → Progress tails cursor i (pick_intent tails cursor)
pick-Progress tails cursor i hc r =
    let d = ahead cursor (position i) in
    let (dlt, there) = ahead_lem cursor (position i) hc (position-lt i) in
    let at_i = ap pick_pattern there ∙ pattern-position i in
    let (k, kle, found, busy) =
      scan_lem tails cursor pattern_len 0 d refl (omega arith) dlt
        (subst (λ x. tails (intent_index x) ≢ 0) (sym at_i) r) in
    subst (Progress tails cursor i) (sym (pick_found tails cursor _ found)) (record {
      picked_ready = busy;
      in_range = omega arith;
      nearer = elim (Bool-cases (k == d)) [
        | inl y ↦
            inl (ap (λ x. pick_pattern ((cursor + x) % pattern_len)) ((==_iff k d).0 y) ∙ at_i)
        | inr n ↦ inr (nearer_lem cursor (position i) k hc (position-lt i) (ground arith))
      ];
    })

-- The intents picked, over the ready queues that the scheduler sees at each pick.
pub picks : List (ℕ → ℕ) → ℕ → List Intent
picks [] cursor = []
picks (tails ∷ rest) cursor = let (i, c) = pick_intent tails cursor in i ∷ picks rest c

abbrev pub Among : Intent → List Intent → Type 0
Among i [] = ⊥
Among i (j ∷ js) = (j ≡ i) ⊎ Among i js

abbrev pub AlwaysReady : Intent → List (ℕ → ℕ) → Type 0
AlwaysReady i [] = Unit
AlwaysReady i (tails ∷ rest) = (tails (intent_index i) ≢ 0) × AlwaysReady i rest

picks_within :
    (i : Intent) (seq : List (ℕ → ℕ)) (cursor : ℕ)
    → cursor < pattern_len
    → AlwaysReady i seq
    → ahead cursor (position i) < length seq
    → Among i (picks seq cursor)
unfolding picks
picks_within i [] cursor hc r h = absurd (omega arith)
picks_within i (tails ∷ rest) cursor hc r h =
    let p = pick-Progress tails cursor i hc r.0 in
    after p.nearer (picks_within i rest (pick_intent tails cursor).1 p.in_range r.1)
  where
    after :
        ((pick_intent tails cursor).0 ≡ i)
          ⊎ (ahead (pick_intent tails cursor).1 (position i) < ahead cursor (position i))
        → (ahead (pick_intent tails cursor).1 (position i) < length rest
            → Among i (picks rest (pick_intent tails cursor).1))
        → ((pick_intent tails cursor).0 ≡ i) ⊎ Among i (picks rest (pick_intent tails cursor).1)
    after (inl now) later = inl now
    after (inr near) later = inr (later (omega arith))

-- No starvation: whatever the other queues do meanwhile, a queue that is ready at 13 picks in a row
-- is picked among them.
pub no_starvation :
    (i : Intent) (seq : List (ℕ → ℕ)) (cursor : ℕ)
    → cursor < pattern_len
    → AlwaysReady i seq
    → pattern_len ≤ length seq
    → Among i (picks seq cursor)
no_starvation i seq cursor hc r h =
    picks_within i seq cursor hc r (omega (arith, ahead_lem cursor (position i) hc (position-lt i)))

-- While any queue is ready the pick is a queue that is ready, and the cursor stays in the pattern.
pub pick_ready :
    (i : Intent) (tails : ℕ → ℕ) (cursor : ℕ)
    → cursor < pattern_len
    → tails (intent_index i) ≢ 0
    → (tails (intent_index (pick_intent tails cursor).0) ≢ 0)
      × ((pick_intent tails cursor).1 < pattern_len)
pick_ready i tails cursor hc r =
    let p = pick-Progress tails cursor i hc r in (p.picked_ready, p.in_range)
