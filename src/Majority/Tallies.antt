-- ===== src/Majority/Tallies.antt =====
-- `InferPano` of decision/majority.go: the vote over the statuses of one metric.
use panorama.Prelude.{
  ℕ, suc, ◌+◌, ◌≤◌, ◌<◌, ◌≡◌, refl, sym, ap, ◌∙◌, ◌⊎◌, inl, inr, string_eq, Option, none, some,
  List, [], ◌∷◌, ◌++◌, ◌&&◌, ltb, nat_beq, length, length-append, if◌then◌else◌, arith,
  Option-cases,
}
use mathlib.Core.List.{append-nil, append_assoc}
use panorama.Prelude.Map
use panorama.Prelude.Map.{GoMap, Distinct, get-put, put-Distinct, get-update_all}
use panorama.Health.{Status, healthy, number, status_beq, status_beq_iff, status_eq, Score, Value}
use panorama.Majority.{FloatOps}
use panorama.Majority.Pano.{ValueStat, uint32_inc, count_of, stat_or_new, add_vote, pick}

-- `m` votes for `st` count no more than `n` votes for `best`: they are fewer, or as many and for a
-- status that is no more severe.
abbrev pub Beaten : Status → ℕ → Status → ℕ → Type 0
Beaten st m best n = (m < n) ⊎ ((m ≡ n) × (number st ≤ number best))

Beaten-trans : (a b c : Status) (m n k : ℕ) → Beaten a m b n → Beaten b n c k → Beaten a m c k
Beaten-trans a b c m n k h g = ground arith

In : Status → ℕ → GoMap Status ℕ → Type 0
In st n [] = ⊥
In st n ((status, cnt) ∷ hist) = ((status ≡ st) × (cnt ≡ n)) ⊎ In st n hist

-- The loop's `maxcnt` and `maxstatus` after one entry, and `maxcnt` at its end.
abbrev next_count : ℕ → ℕ → ℕ
next_count c cnt = if ltb c cnt then cnt else c

abbrev next_status : ℕ → Status → Status → ℕ → Status
next_status c s status cnt =
    if ltb c cnt
    then status
    else if nat_beq cnt c && ltb (number s) (number status)
    then status
    else s

pick_count : GoMap Status ℕ → ℕ → ℕ
pick_count [] c = c
pick_count ((status, cnt) ∷ hist) c = pick_count hist (next_count c cnt)

module _ (status : Status) (cnt c : ℕ) (s : Status) where
  Beaten-old : Beaten s c (next_status c s status cnt) (next_count c cnt)
  Beaten-old = ground arith

  Beaten-new : Beaten status cnt (next_status c s status cnt) (next_count c cnt)
  Beaten-new = ground arith

Beaten-start :
    (hist : GoMap Status ℕ) (c : ℕ) (s : Status) → Beaten s c (pick hist c s) (pick_count hist c)
unfolding pick pick_count
Beaten-start [] c s = inr (refl, omega arith)
Beaten-start ((status, cnt) ∷ hist) c s =
    Beaten-trans s _ _ c _ _ (Beaten-old status cnt c s)
      (Beaten-start hist (next_count c cnt) (next_status c s status cnt))

Beaten-entry :
    (hist : GoMap Status ℕ) (c : ℕ) (s st : Status) (n : ℕ)
    → In st n hist
    → Beaten st n (pick hist c s) (pick_count hist c)
unfolding pick pick_count In
Beaten-entry [] c s st n h = absurd h
Beaten-entry ((status, cnt) ∷ hist) c s st n (inl (e, f)) =
    rw (← e, ← f)
      (Beaten-trans status _ _ cnt _ _ (Beaten-new status cnt c s)
        (Beaten-start hist (next_count c cnt) (next_status c s status cnt)))
Beaten-entry ((status, cnt) ∷ hist) c s st n (inr h) =
    Beaten-entry hist (next_count c cnt) (next_status c s status cnt) st n h

-- What is picked is an entry, or what the loop started from.
pick-In :
    (hist : GoMap Status ℕ) (c : ℕ) (s : Status)
    → ((pick hist c s ≡ s) × (pick_count hist c ≡ c)) ⊎ In (pick hist c s) (pick_count hist c) hist
unfolding pick pick_count In
pick-In [] c s = inl (refl, refl)
pick-In ((status, cnt) ∷ hist) c s =
    ground (arith, pick-In hist (next_count c cnt) (next_status c s status cnt))

get-In : (hist : GoMap Status ℕ) (st : Status) (n : ℕ) → Map.get st hist ≡ some n → In st n hist
unfolding Map.get In
get-In [] st n h = cc
get-In ((status, cnt) ∷ hist) st n h = ground (arith, status_beq_iff status st, get-In hist st n)

In-get :
    (hist : GoMap Status ℕ) (st : Status) (n : ℕ)
    → Distinct hist
    → In st n hist
    → Map.get st hist ≡ some n
unfolding Map.get In
In-get [] st n d h = absurd h
In-get ((status, cnt) ∷ hist) st n d (inl (e, f)) = ground (arith, status_beq_iff status st)
In-get ((status, cnt) ∷ hist) st n d (inr h) =
    ground (arith, status_beq_iff status st, In-get hist st n d.1 h)

-- How often a status is among the values, and the sum of their scores.
pub count : Status → List Value → ℕ
count st [] = 0
count st (v ∷ vs) = (if status_beq v.status st then 1 else 0) + count st vs

count-append : (st : Status) (vs ws : List Value) → count st (vs ++ ws) ≡ count st vs + count st ws
unfolding count
count-append st [] ws = omega arith
count-append st (v ∷ vs) ws = omega (arith, count-append st vs ws)

count-le-length : (st : Status) (vs : List Value) → count st vs ≤ length vs
unfolding count
count-le-length st [] = omega arith
count-le-length st (v ∷ vs) = ground (arith, count-le-length st vs)

module _ (ops : FloatOps) where
  pub total : Score → List Value → Score
  total acc [] = acc
  total acc (v ∷ vs) = total (ops.add acc v.score) vs

  total-snoc :
      (acc : Score) (vs : List Value) (v : Value)
      → total acc (vs ++ v ∷ []) ≡ ops.add (total acc vs) v.score
  unfolding total
  total-snoc acc [] v = refl
  total-snoc acc (w ∷ vs) v = total-snoc (ops.add acc w.score) vs v

  -- `stat` is the statistics of the values `vs`.
  pub record Tallied (stat : ValueStat) (vs : List Value) : Type 0 where
    pub size : stat.cnt ≡ length vs
    pub sum : stat.score_sum ≡ total ops.zero_score vs
    pub once : Distinct stat.status_hist
    pub counts : (st : Status) → count_of (Map.get st stat.status_hist) ≡ count st vs

  Tallied-new : Tallied (stat_or_new ops none) []
  unfolding total count Map.get
  Tallied-new = record { size = refl; sum = refl; once = tt; counts = λ st. refl }

  add_vote-Tallied :
      (stat : ValueStat) (vs : List Value) (v : Value)
      → length vs + 1 < 4294967296
      → Tallied stat vs
      → Tallied (add_vote ops v stat) (vs ++ v ∷ [])
  unfolding add_vote count
  add_vote-Tallied stat vs v h t = record {
    size = omega (arith, length-append vs (v ∷ []), t.size);
    sum = rw (total-snoc ops.zero_score vs v, t.sum);
    once = put-Distinct v.status _ stat.status_hist t.once;
    counts = λ st. rw (count-append st vs (v ∷ [])) (vote_count st);
  }
    where
      vote_count :
          (st : Status)
          → count_of (
              Map.get st (
                Map.put v.status
                  (uint32_inc (count_of (Map.get v.status stat.status_hist)))
                  stat.status_hist))
            ≡ count st vs + count st (v ∷ [])
      vote_count st =
          let n = uint32_inc (count_of (Map.get v.status stat.status_hist)) in
          rw (get-put v.status st n stat.status_hist) (
            ground (
              arith,
              t.counts st,
              t.counts v.status,
              status_beq_iff v.status st,
              count-le-length st vs,
              count-le-length v.status vs,
            ))

  -- The statistics of one metric after the values `vs`.
  abbrev pub voted : List Value → Option ValueStat → Option ValueStat
  voted [] o = o
  voted (v ∷ vs) o = voted vs (some (add_vote ops v (stat_or_new ops o)))

  voted-Tallied :
      (vs seen : List Value) (stat : ValueStat)
      → length seen + length vs < 4294967296
      → Tallied stat seen
      → (final : ValueStat) × (voted vs (some stat) ≡ some final) × Tallied final (seen ++ vs)
  voted-Tallied [] seen stat h t = (stat, refl, rw (append-nil seen) t)
  voted-Tallied (v ∷ vs) seen stat h t = rw (← append_assoc seen (v ∷ []) vs) (
      voted-Tallied vs (seen ++ v ∷ []) (add_vote ops v stat)
        (omega (arith, length-append seen (v ∷ []))) (add_vote-Tallied stat seen v (omega arith) t))

  pub voted_first-Tallied :
      (v : Value) (vs : List Value)
      → suc (length vs) < 4294967296
      → (final : ValueStat) × (voted (v ∷ vs) none ≡ some final) × Tallied final (v ∷ vs)
  voted_first-Tallied v vs h =
      voted-Tallied vs (v ∷ []) _ (omega arith)
        (add_vote-Tallied (stat_or_new ops none) [] v (omega arith) Tallied-new)

  some_vote : (v : Value) (vs : List Value) → 1 ≤ count v.status (v ∷ vs)
  unfolding count
  some_vote v vs = ground (arith, status_beq_iff v.status v.status)

  module _ (stat : ValueStat) (v : Value) (vs : List Value) (t : Tallied stat (v ∷ vs)) where
    abbrev best : Status
    best = pick stat.status_hist 0 healthy

    abbrev most : ℕ
    most = pick_count stat.status_hist 0

    Beaten-count : (st : Status) → (count st (v ∷ vs) ≡ 0) ⊎ Beaten st (count st (v ∷ vs)) best most
    Beaten-count st = elim (Option-cases (Map.get st stat.status_hist)) [
      | inl e ↦ inl (sym (t.counts st) ∙ ap count_of e)
      | inr (n, e) ↦ inr (
          rw (sym (t.counts st) ∙ ap count_of e)
            (Beaten-entry stat.status_hist 0 healthy st n (get-In stat.status_hist st n e)))
    ]

    most_pos : 1 ≤ most
    most_pos = ground (arith, Beaten-count v.status, some_vote v vs)

    count-best : count best (v ∷ vs) ≡ most
    count-best = elim (pick-In stat.status_hist 0 healthy) [
      | inl (_, e) ↦ absurd (omega (arith, e, most_pos))
      | inr e ↦ sym (t.counts best) ∙ ap count_of (In-get stat.status_hist best most t.once e)
    ]

  -- The picked status has the most votes, and of those with as many it is the most severe.
  pub pick-most :
      (stat : ValueStat) (v : Value) (vs : List Value)
      → Tallied stat (v ∷ vs)
      → (st : Status)
      → Beaten st
          (count st (v ∷ vs))
          (pick stat.status_hist 0 healthy)
          (count (pick stat.status_hist 0 healthy) (v ∷ vs))
  pick-most stat v vs t st =
      rw (count-best stat v vs t)
        (ground (arith, Beaten-count stat v vs t st, most_pos stat v vs t))
