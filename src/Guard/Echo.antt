-- ===== src/Guard/Echo.antt =====
-- What `consumedSyncEcho` reports about the last dispatch region.
use anvilkit_plugin_collab_y.Base.{
  ℕ, ◌+◌, ◌≡◌, ap, ◌∙◌, true, false, List, [], ◌∷◌, ltb, nat_eq, arith,
}
use anvilkit_plugin_collab_y.Guard.{
  Guard, Call, start, finish, suppress, begin, leave, end_dispatch, note_suppressed, is_active,
  consumed_sync_echo, step, run,
}

-- The guard stays active through every step of a history.
abbrev pub StaysActive : Guard → List Call → Type 0
StaysActive g [] = is_active g ≡ true
StaysActive g (c ∷ cs) = (is_active g ≡ true) × StaysActive (step g c) cs

-- How many changes were suppressed.
abbrev pub suppressions : List Call → ℕ
suppressions [] = 0
suppressions (suppress ∷ cs) = suppressions cs + 1
suppressions (_ ∷ cs) = suppressions cs

step_counts :
    (g : Guard) (c : Call)
    → is_active g ≡ true
    → (step g c).sync_suppress_in_flight ≡ g.sync_suppress_in_flight + suppressions (c ∷ [])
unfolding step is_active begin end_dispatch leave note_suppressed
step_counts g start a = ground arith
step_counts g (finish t now) a = ground arith
step_counts g suppress a = ground arith

suppressions_cons :
    (c : Call) (cs : List Call) → suppressions (c ∷ cs) ≡ suppressions (c ∷ []) + suppressions cs
suppressions_cons start cs = omega arith
suppressions_cons (finish t now) cs = omega arith
suppressions_cons suppress cs = omega arith

run_counts :
    (g : Guard) (cs : List Call)
    → StaysActive g cs
    → (run g cs).sync_suppress_in_flight ≡ g.sync_suppress_in_flight + suppressions cs
unfolding run
run_counts g [] a = omega arith
run_counts g (c ∷ cs) a =
    omega (arith, step_counts g c a.0, run_counts (step g c) cs a.1, suppressions_cons c cs)

begin_idle : (g : Guard) → is_active g ≡ false → (begin g).0.sync_suppress_in_flight ≡ 0
unfolding is_active begin
begin_idle g h = ground arith

last_close :
    (g : Guard) (t now : ℕ)
    → is_active g ≡ true
    → is_active (end_dispatch g t now) ≡ false
    → (end_dispatch g t now).last_dispatch_sync_suppress ≡ g.sync_suppress_in_flight
unfolding is_active end_dispatch leave
last_close g t now a h = ground arith

-- A region that begins on an idle guard, stays active through any nested dispatches and closes
-- with the outermost `end` reports a synchronous echo exactly when something was suppressed in
-- it; what earlier regions suppressed does not count.
pub consumed_sync_echo-region :
    (g : Guard) (cs : List Call) (t now : ℕ)
    → is_active g ≡ false
    → StaysActive (begin g).0 cs
    → is_active (end_dispatch (run (begin g).0 cs) t now) ≡ false
    → consumed_sync_echo (end_dispatch (run (begin g).0 cs) t now) ≡ ltb 0 (suppressions cs)
unfolding consumed_sync_echo run
consumed_sync_echo-region g cs t now idle stays closed = ap (ltb 0) (
    last_close _ t now (active_after _ cs stays) closed
    ∙ omega (arith, run_counts _ cs stays, begin_idle g idle))
  where
    active_after : (g : Guard) (cs : List Call) → StaysActive g cs → is_active (run g cs) ≡ true
    active_after g [] a = a
    active_after g (c ∷ cs) a = active_after (step g c) cs a.1
