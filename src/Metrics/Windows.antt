-- ===== src/Metrics/Windows.antt =====
-- What the churn window counts.
use anvilkit_plugin_collab_y.Base.{
  ℕ, ◌-◌, ◌≤◌, ◌≡◌, refl, sym, ap, subst, ◌∙◌, inl, inr, Bool, List, [], ◌∷◌, ◌++◌, length, keep,
  All, ltb, leb, arith, Bool-cases,
}
use anvilkit_plugin_collab_y.Metrics.{
  Metrics, trim_before, trim_churn_window, churn_window_ms, inc_churn, snapshot,
  create_metrics_state,
}
use mathlib.Core.List.{append-nil, append_assoc}

-- Clock readings that do not go back.
abbrev pub Sorted : List ℕ → Type 0
Sorted [] = Unit
Sorted (x ∷ xs) = All (λ y. x ≤ y) xs × Sorted xs

keep-All : (c : ℕ) (xs : List ℕ) → All (λ y. c ≤ y) xs → keep (leb c) xs ≡ xs
keep-All c [] h = refl
keep-All c (x ∷ xs) h = ground (arith, keep-All c xs h.1)

All-le : (a b : ℕ) (xs : List ℕ) → a ≤ b → All (λ y. b ≤ y) xs → All (λ y. a ≤ y) xs
All-le a b [] l h = tt
All-le a b (x ∷ xs) l h = (omega (arith, l, h.0), All-le a b xs l h.1)

trim-keep : (c : ℕ) (xs : List ℕ) → Sorted xs → trim_before (λ t. t) c xs ≡ keep (leb c) xs
unfolding trim_before
trim-keep c [] s = refl
trim-keep c (x ∷ xs) s = elim (Bool-cases (ltb x c)) [
  | inl t ↦ ground (arith, trim-keep c xs s.1)
  | inr f ↦ ground (arith, keep-All c xs (All-le c x xs (ground arith) s.0))
]

keep-append : (p : ℕ → Bool) (xs ys : List ℕ) → keep p (xs ++ ys) ≡ keep p xs ++ keep p ys
keep-append p [] ys = refl
keep-append p (x ∷ xs) ys = ground (arith, keep-append p xs ys)

keep-keep : (c d : ℕ) (xs : List ℕ) → c ≤ d → keep (leb d) (keep (leb c) xs) ≡ keep (leb d) xs
keep-keep c d [] h = refl
keep-keep c d (x ∷ xs) h = ground (arith, keep-keep c d xs h)

All-keep :
    (a : ℕ) (p : ℕ → Bool) (xs ys : List ℕ)
    → All (λ y. a ≤ y) (xs ++ ys)
    → All (λ y. a ≤ y) (keep p xs ++ ys)
All-keep a p [] ys h = h
All-keep a p (x ∷ xs) ys h = elim (Bool-cases (p x)) [
  | inl t ↦ rw t (h.0, All-keep a p xs ys h.1)
  | inr f ↦ rw f (All-keep a p xs ys h.1)
]

Sorted-keep : (p : ℕ → Bool) (xs ys : List ℕ) → Sorted (xs ++ ys) → Sorted (keep p xs ++ ys)
Sorted-keep p [] ys h = h
Sorted-keep p (x ∷ xs) ys h = elim (Bool-cases (p x)) [
  | inl t ↦ rw t (All-keep x p xs ys h.0, Sorted-keep p xs ys h.1)
  | inr f ↦ rw f (Sorted-keep p xs ys h.1)
]

Sorted-front : (xs ys : List ℕ) → Sorted (xs ++ ys) → Sorted xs
Sorted-front [] ys h = tt
Sorted-front (x ∷ xs) ys h = (All-front xs h.0, Sorted-front xs ys h.1)
  where
    All-front : (zs : List ℕ) → All (λ y. x ≤ y) (zs ++ ys) → All (λ y. x ≤ y) zs
    All-front [] k = tt
    All-front (z ∷ zs) k = (k.0, All-front zs k.1)

-- Churn events at their times.
unfoldable pub churn_all : Metrics → List ℕ → Metrics
churn_all m [] = m
churn_all m (t ∷ ts) = churn_all (inc_churn m t) ts

kept_since : ℕ → List ℕ → List ℕ
kept_since now ts = keep (leb (now - churn_window_ms)) ts

window-churn_all :
    (ts : List ℕ) (m : Metrics) (now : ℕ)
    → Sorted (m.churn_timestamps ++ ts)
    → All (λ t. t ≤ now) ts
    → trim_churn_window now (churn_all m ts).churn_timestamps
      ≡ kept_since now (m.churn_timestamps ++ ts)
unfolding churn_all trim_churn_window kept_since inc_churn
window-churn_all [] m now s h =
    trim-keep (now - churn_window_ms) m.churn_timestamps (Sorted-front m.churn_timestamps [] s)
    ∙ ap (keep (leb (now - churn_window_ms))) (sym (append-nil m.churn_timestamps))
window-churn_all (t ∷ ts) m now s h =
    let w = m.churn_timestamps in
    let w' = w ++ (t ∷ []) in
    let c = t - churn_window_ms in
    let d = now - churn_window_ms in
    let joined : w' ++ ts ≡ w ++ (t ∷ ts) = append_assoc w (t ∷ []) ts in
    let sorted : Sorted (w' ++ ts) = subst Sorted (sym joined) s in
    let cut = trim-keep c w' (Sorted-front w' ts sorted) in
    window-churn_all ts (inc_churn m t) now
      (subst (λ x. Sorted (x ++ ts)) (sym cut) (Sorted-keep (leb c) w' ts sorted)) h.1
    ∙ ap (λ x. keep (leb d) (x ++ ts)) cut
    ∙ keep-append (leb d) (keep (leb c) w') ts
    ∙ ap (λ x. x ++ keep (leb d) ts) (keep-keep c d w' (omega (arith, h.0)))
    ∙ sym (keep-append (leb d) w' ts)
    ∙ ap (keep (leb d)) joined

-- The churn of a snapshot is the number of events in the five minutes before it, when the clock
-- does not go back, although old events are dropped along the way.
pub snapshot-churn_all :
    (ts : List ℕ) (now : ℕ)
    → Sorted ts
    → All (λ t. t ≤ now) ts
    → (snapshot (churn_all create_metrics_state ts) now).1.awareness_churn
      ≡ length (keep (leb (now - churn_window_ms)) ts)
unfolding snapshot kept_since
snapshot-churn_all ts now s h = ap length (window-churn_all ts create_metrics_state now s h)
