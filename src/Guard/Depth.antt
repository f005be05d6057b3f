-- ===== src/Guard/Depth.antt =====
-- The depth counter of the guard against its set of open tokens.
use anvilkit_plugin_collab_y.Base.{
  ℕ, sym, ap, subst, ◌∙◌, ltb→lt, lt→ltb, beq_refl, ◌+◌, ◌≤◌, ◌<◌, ◌≡◌, refl, ◌↔◌, Bool, true,
  false, Option, none, List, [], ◌∷◌, ◌++◌, ltb, nat_eq, if◌then◌else◌, length, length-append, All,
  All-append, arith, inl, inr, Bool-cases, nat_beq_iff, nat_beq, not,
}
use anvilkit_plugin_collab_y.Base.IdSet.{
  mem, add, discard, Distinct, add-Distinct, discard-Distinct, length-discard, mem-add, mem-discard,
}
use anvilkit_plugin_collab_y.Guard.{
  Guard, Call, start, finish, suppress, create_remote_dispatch_guard, begin, leave, end_dispatch,
  note_suppressed, is_active, within_grace_window, step, run,
}

-- The depth counts the open tokens, which are distinct and were all handed out before.
pub record Inv (g : Guard) : Type 0 where
  pub counted : g.depth ≡ length g.open_tokens
  pub distinct : Distinct g.open_tokens
  pub fresh : All (λ t. t < g.next_token) g.open_tokens

All-lt_mono : (m n : ℕ) (xs : List ℕ) → m ≤ n → All (λ t. t < m) xs → All (λ t. t < n) xs
All-lt_mono m n [] h a = tt
All-lt_mono m n (x ∷ xs) h a = (omega arith, All-lt_mono m n xs h a.1)

not_mem_above : (n : ℕ) (xs : List ℕ) → All (λ t. t < n) xs → mem n xs ≡ false
unfolding mem
not_mem_above n [] a = refl
not_mem_above n (x ∷ xs) a = ground (arith, a.0, not_mem_above n xs a.1)

All-discard : (n k : ℕ) (xs : List ℕ) → All (λ t. t < n) xs → All (λ t. t < n) (discard k xs)
unfolding discard
All-discard n k [] a = tt
All-discard n k (x ∷ xs) a = elim (Bool-cases (nat_beq x k)) [
  | inl e ↦ rw e (All-discard n k xs a.1)
  | inr e ↦ rw e (a.0, All-discard n k xs a.1)
]

begin-Inv : (g : Guard) → Inv g → Inv (begin g).0
unfolding begin add
begin-Inv g v =
    let new = not_mem_above g.next_token g.open_tokens v.fresh in
    let rest = All-lt_mono g.next_token (g.next_token + 1) g.open_tokens (omega arith) v.fresh in
    record {
      counted = ground (arith, length-append g.open_tokens (g.next_token ∷ []));
      distinct = add-Distinct g.next_token g.open_tokens v.distinct;
      fresh = rw new (
          All-append (λ t. t < g.next_token + 1) g.open_tokens (g.next_token ∷ []) rest
            (omega arith, tt));
    }

leave_counted :
    (g : Guard) (t now : ℕ)
    → mem t g.open_tokens ≡ true
    → Inv g
    → (leave g t now).depth ≡ length (discard t g.open_tokens)
unfolding leave
leave_counted g t now h v = ground (arith, length-discard t g.open_tokens v.distinct h, v.counted)

leave_tokens :
    (g : Guard) (t now : ℕ)
    → ((leave g t now).open_tokens ≡ discard t g.open_tokens)
      × ((leave g t now).next_token ≡ g.next_token)
unfolding leave
leave_tokens g t now = ground arith

leave-Inv : (g : Guard) (t now : ℕ) → mem t g.open_tokens ≡ true → Inv g → Inv (leave g t now)
leave-Inv g t now h v = record {
  counted = rw (leave_tokens g t now).0 (leave_counted g t now h v);
  distinct = rw (leave_tokens g t now).0 (discard-Distinct t g.open_tokens v.distinct);
  fresh =
      rw ((leave_tokens g t now).0, (leave_tokens g t now).1)
        (All-discard g.next_token t g.open_tokens v.fresh);
}

end_dispatch-Inv : (g : Guard) (t now : ℕ) → Inv g → Inv (end_dispatch g t now)
unfolding end_dispatch
end_dispatch-Inv g t now v = elim (Bool-cases (mem t g.open_tokens)) [
  | inl e ↦ rw e (leave-Inv g t now e v)
  | inr e ↦ rw e v
]

note_suppressed-Inv : (g : Guard) → Inv g → Inv (note_suppressed g)
unfolding note_suppressed
note_suppressed-Inv g v = elim (Bool-cases (ltb 0 g.depth)) [
  | inl e ↦ rw e (record { counted = v.counted; distinct = v.distinct; fresh = v.fresh })
  | inr e ↦ rw e v
]

pub step-Inv : (g : Guard) (c : Call) → Inv g → Inv (step g c)
unfolding step
step-Inv g start v = begin-Inv g v
step-Inv g (finish t now) v = end_dispatch-Inv g t now v
step-Inv g suppress v = note_suppressed-Inv g v

pub run-Inv : (g : Guard) (cs : List Call) → Inv g → Inv (run g cs)
unfolding run
run-Inv g [] v = v
run-Inv g (c ∷ cs) v = run-Inv (step g c) cs (step-Inv g c v)

pub create-Inv : (grace : Option ℕ) → Inv (create_remote_dispatch_guard grace)
unfolding create_remote_dispatch_guard
create-Inv grace = record { counted = refl; distinct = tt; fresh = tt }

-- Is `end(t)` called in a history?
abbrev pub finishes : ℕ → List Call → Bool
finishes t [] = false
finishes t (start ∷ cs) = finishes t cs
finishes t (finish u now ∷ cs) = if nat_beq u t then true else finishes t cs
finishes t (suppress ∷ cs) = finishes t cs

-- Was `t` handed out by a `begin` of the history, and not ended since? `n` is the next token.
abbrev pub outstanding : ℕ → ℕ → List Call → Bool
outstanding t n [] = false
outstanding t n (start ∷ cs) = if nat_beq n t then not (finishes t cs) else outstanding t (n + 1) cs
outstanding t n (finish u now ∷ cs) = outstanding t n cs
outstanding t n (suppress ∷ cs) = outstanding t n cs

outstanding_old : (t n : ℕ) (cs : List Call) → t < n → outstanding t n cs ≡ false
outstanding_old t n [] h = refl
outstanding_old t n (start ∷ cs) h = ground (arith, outstanding_old t (n + 1) cs (omega arith))
outstanding_old t n (finish u now ∷ cs) h = outstanding_old t n cs h
outstanding_old t n (suppress ∷ cs) h = outstanding_old t n cs h

lt_of_mem : (t n : ℕ) (xs : List ℕ) → All (λ x. x < n) xs → mem t xs ≡ true → t < n
unfolding mem
lt_of_mem t n [] a h = cc
lt_of_mem t n (x ∷ xs) a h = elim (Bool-cases (nat_beq x t)) [
  | inl e ↦ subst (λ y. y < n) ((nat_beq_iff x t).0 e) a.0
  | inr e ↦ lt_of_mem t n xs a.1 (rw e at h)
]

-- What a history does to membership, from any valid state.
mem-step-finish :
    (g : Guard) (t u now : ℕ)
    → mem t (end_dispatch g u now).open_tokens
      ≡ (if nat_beq u t then false else mem t g.open_tokens)
unfolding end_dispatch leave
mem-step-finish g t u now = ground (arith, mem-discard t u g.open_tokens, nat_beq_iff u t)

next_token-finish : (g : Guard) (u now : ℕ) → (end_dispatch g u now).next_token ≡ g.next_token
unfolding end_dispatch leave
next_token-finish g u now = ground arith

mem-begin :
    (g : Guard) (t : ℕ)
    → mem t (begin g).0.open_tokens ≡ (if nat_beq g.next_token t then true else mem t g.open_tokens)
unfolding begin
mem-begin g t = ground (arith, mem-add t g.next_token g.open_tokens)

next_token-begin : (g : Guard) → (begin g).0.next_token ≡ g.next_token + 1
unfolding begin
next_token-begin g = refl

note_suppressed_keeps :
    (g : Guard)
    → ((note_suppressed g).open_tokens ≡ g.open_tokens)
      × ((note_suppressed g).next_token ≡ g.next_token)
unfolding note_suppressed
note_suppressed_keeps g = ground arith

mem-run :
    (g : Guard) (cs : List Call) (t : ℕ)
    → Inv g
    → mem t (run g cs).open_tokens
      ≡ (if mem t g.open_tokens then not (finishes t cs) else outstanding t g.next_token cs)
unfolding run step
mem-run g [] t v = ground arith
mem-run g (start ∷ cs) t v = ground (
  arith,
  mem-run (begin g).0 cs t (begin-Inv g v),
  mem-begin g t,
  next_token-begin g,
  not_mem_above g.next_token g.open_tokens v.fresh,
)
mem-run g (finish u now ∷ cs) t v = ground (
  arith,
  mem-run (end_dispatch g u now) cs t (end_dispatch-Inv g u now v),
  mem-step-finish g t u now,
  next_token-finish g u now,
  outstanding_old t g.next_token cs,
  lt_of_mem t g.next_token g.open_tokens v.fresh,
)
mem-run g (suppress ∷ cs) t v =
    ground
      (arith, mem-run (note_suppressed g) cs t (note_suppressed-Inv g v), note_suppressed_keeps g)

-- After any history the open tokens are exactly those that a `begin` handed out and no later
-- `end` gave back.
mem-open_tokens :
    (grace : Option ℕ) (cs : List Call) (t : ℕ)
    → mem t (run (create_remote_dispatch_guard grace) cs).open_tokens ≡ outstanding t 1 cs
unfolding create_remote_dispatch_guard mem
mem-open_tokens grace cs t = mem-run _ cs t (create-Inv grace)

run-append : (g : Guard) (cs ds : List Call) → run g (cs ++ ds) ≡ run (run g cs) ds
unfolding run
run-append g [] ds = refl
run-append g (c ∷ cs) ds = run-append (step g c) cs ds

-- After any history a token is open exactly when a `begin` handed it out and no later `end` gave
-- it back. An `end` of a token that is not open, or of one that is yet to be handed out, changes
-- nothing: whatever follows, the whole state is that of the same calls without it.
pub run-end_dispatch :
    (grace : Option ℕ) (cs ds : List Call) (t now : ℕ)
    → let g = create_remote_dispatch_guard grace in
      (mem t (run g cs).open_tokens ≡ outstanding t 1 cs)
      × (run g (cs ++ (finish t now ∷ ds))
          ≡ run g (cs ++ (if outstanding t 1 cs then finish t now ∷ ds else ds)))
unfolding run step end_dispatch
run-end_dispatch grace cs ds t now =
    let g = create_remote_dispatch_guard grace in
    let known = mem-open_tokens grace cs t in
    (
      known,
      elim (Bool-cases (outstanding t 1 cs)) [
        | inl e ↦ rw e refl
        | inr e ↦
            let shut : (end_dispatch (run g cs) t now) ≡ run g cs = rw (known ∙ e) refl in
            rw e (
              run-append g cs (finish t now ∷ ds)
              ∙ ap (λ h. run h ds) shut
              ∙ sym (run-append g cs ds))
      ],
    )

active_mem : (g : Guard) → Inv g → is_active g ≡ true → (t : ℕ) × (mem t g.open_tokens ≡ true)
unfolding is_active mem
active_mem g v h = first_token g.open_tokens (omega (arith, ltb→lt 0 g.depth h, v.counted))
  where
    first_token : (xs : List ℕ) → 0 < length xs → (t : ℕ) × (mem t xs ≡ true)
    first_token [] p = absurd (omega arith)
    first_token (x ∷ xs) p = (x, ground (arith, nat_beq_iff x x))

mem_active : (g : Guard) (t : ℕ) → Inv g → mem t g.open_tokens ≡ true → is_active g ≡ true
unfolding is_active
mem_active g t v m =
    lt→ltb 0 g.depth (omega (arith, length-discard t g.open_tokens v.distinct m, v.counted))

-- The guard is active after a history exactly when some dispatch was begun and not ended, and
-- its depth is the number of such dispatches.
pub is_active_iff :
    (grace : Option ℕ) (cs : List Call)
    → let g = run (create_remote_dispatch_guard grace) cs in
      ((is_active g ≡ true) ↔ ((t : ℕ) × (outstanding t 1 cs ≡ true)))
      × (g.depth ≡ length g.open_tokens)
is_active_iff grace cs =
    let g = run (create_remote_dispatch_guard grace) cs in
    let v = run-Inv (create_remote_dispatch_guard grace) cs (create-Inv grace) in
    (
      (
        λ h. let (t, m) = active_mem g v h in (t, sym (mem-open_tokens grace cs t) ∙ m),
        λ h. mem_active g h.0 v (mem-open_tokens grace cs h.0 ∙ h.1),
      ),
      v.counted,
    )

-- `end` is idempotent per token, whatever the two clock readings.
pub end_dispatch_idem :
    (g : Guard) (t now later : ℕ)
    → end_dispatch (end_dispatch g t now) t later ≡ end_dispatch g t now
unfolding end_dispatch
end_dispatch_idem g t now later = elim (Bool-cases (mem t (end_dispatch g t now).open_tokens)) [
  | inl e ↦ absurd (cc (mem-step-finish g t t now, e, beq_refl t))
  | inr e ↦ rw e refl
]

grace_ms-step : (g : Guard) (c : Call) → (step g c).grace_ms ≡ g.grace_ms
unfolding step begin end_dispatch leave note_suppressed
grace_ms-step g start = refl
grace_ms-step g (finish t now) = ground arith
grace_ms-step g suppress = ground arith

grace_ms-run : (g : Guard) (cs : List Call) → (run g cs).grace_ms ≡ g.grace_ms
unfolding run
grace_ms-run g [] = refl
grace_ms-run g (c ∷ cs) = grace_ms-run (step g c) cs ∙ grace_ms-step g c

closed_grace : (g : Guard) (now : ℕ) → g.grace_ms ≡ 0 → within_grace_window g now ≡ is_active g
unfolding within_grace_window is_active
closed_grace g now e = ground arith

-- With the default grace of 0 ms the window is the in-flight period itself, at every clock
-- reading and after every history.
pub within_grace_window-default :
    (cs : List Call) (now : ℕ)
    → let g = run (create_remote_dispatch_guard none) cs in within_grace_window g now ≡ is_active g
unfolding create_remote_dispatch_guard
within_grace_window-default cs now =
    closed_grace _ now (grace_ms-run (create_remote_dispatch_guard none) cs)
