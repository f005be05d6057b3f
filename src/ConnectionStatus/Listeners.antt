-- ===== src/ConnectionStatus/Listeners.antt =====
-- Listeners know the current status, and the source is attached at most once.
use anvilkit_plugin_collab_y.Base.{
  ℕ, ◌≡◌, refl, Bool, true, none, some, List, [], ◌∷◌, ◌++◌, nat_eq, if◌then◌else◌, arith, if-both,
}
use anvilkit_plugin_collab_y.Base.Dict.{last_of}
use anvilkit_plugin_collab_y.Base.IdSet.{mem, mem-add, mem-discard}
use anvilkit_plugin_collab_y.ConnectionStatus.{
  Status, ConnectionStatus, Call, emitting, listening, leaving, registered, starting, teardown,
  effective, notify_all, emit, on_status_change, unsubscribe, notify_subscribe_registered, start,
  destroy, step, run, create_connection_status, synced,
}

last_of-append :
    {A : Type 0} (k : ℕ) (xs ys : List (ℕ × A))
    → last_of k (xs ++ ys) ≡ elim (last_of k ys) [ some v ↦ some v | none ↦ last_of k xs ]
unfolding last_of
last_of-append k [] ys = ground arith
last_of-append k ((j, v) ∷ xs) ys = ground (arith, last_of-append k xs ys)

last_of-notify_all :
    (k : ℕ) (s : Status) (ks : List ℕ)
    → last_of k (notify_all s ks) ≡ (if mem k ks then some s else none)
unfolding last_of mem
last_of-notify_all k s [] = refl
last_of-notify_all k s (j ∷ ks) = ground (arith, last_of-notify_all k s ks)

-- The last call of a listener that is in the set was with the current status.
Informed : ConnectionStatus → Type 0
Informed c = (k : ℕ) → mem k c.listeners ≡ true → last_of k c.notified ≡ some c.current

emit-Informed :
    (c : ConnectionStatus) (next : Status) (queued : ℕ) → Informed c → Informed (emit c next queued)
unfolding Informed emit
emit-Informed c next queued i k m = ground (
  arith,
  last_of-append k c.notified (notify_all (effective next queued) c.listeners),
  last_of-notify_all k (effective next queued) c.listeners,
  m,
)

listen-Informed :
    (c : ConnectionStatus) (callback : ℕ) → Informed c → Informed (on_status_change c callback)
unfolding Informed on_status_change last_of
listen-Informed c callback i k m = ground (
  arith,
  i k,
  last_of-append k c.notified ((callback, c.current) ∷ []),
  mem-add k callback c.listeners,
  m,
)

leave-Informed :
    (c : ConnectionStatus) (callback : ℕ) → Informed c → Informed (unsubscribe c callback)
unfolding Informed unsubscribe
leave-Informed c callback i k m = ground (arith, i k, mem-discard k callback c.listeners, m)

start-Informed : (c : ConnectionStatus) → Informed c → Informed (start c)
unfolding Informed start
start-Informed c i =
    if-both Informed c.started _ _ (λ t. i)
      (λ f. if-both Informed c.has_source _ _ (λ t. i) (λ g. i))

destroy-Informed : (c : ConnectionStatus) → Informed c → Informed (destroy c)
unfolding Informed destroy mem
destroy-Informed c i k m = absurd (cc (m))

step-Informed : (c : ConnectionStatus) (e : Call) → Informed c → Informed (step c e)
unfolding step notify_subscribe_registered
step-Informed c (emitting next queued) i = emit-Informed c next queued i
step-Informed c (listening callback) i = listen-Informed c callback i
step-Informed c (leaving callback) i = leave-Informed c callback i
step-Informed c (registered now) i =
    if-both Informed _ _ _ (λ t. emit-Informed c (synced now) 0 i) (λ f. i)
step-Informed c starting i = start-Informed c i
step-Informed c teardown i = destroy-Informed c i

run-Informed : (es : List Call) (c : ConnectionStatus) → Informed c → Informed (run c es)
unfolding run
run-Informed [] c i = i
run-Informed (e ∷ es) c i = run-Informed es (step c e) (step-Informed c e i)

-- After any history on a new module, with or without a source, the last status that a listener
-- in the set was called with is the current status, from its registration on.
pub last_of-notified :
    (source : Bool) (es : List Call) (k : ℕ)
    → let c = run (create_connection_status source) es in
      mem k c.listeners ≡ true → last_of k c.notified ≡ some c.current
unfolding Informed create_connection_status mem
last_of-notified source es =
    run-Informed es (create_connection_status source) (λ k m. absurd (cc (m)))

-- The source is attached at most once, after a start, and only if there is one.
record Attaching (c : ConnectionStatus) : Type 0 where
  calls : c.attach_calls ≡ (if c.started then (if c.has_source then 1 else 0) else 0)
  after : c.attached ≡ true → (c.started ≡ true) × (c.has_source ≡ true)

step-Attaching : (c : ConnectionStatus) (e : Call) → Attaching c → Attaching (step c e)
unfolding step emit on_status_change unsubscribe notify_subscribe_registered start destroy
step-Attaching c (emitting next queued) a = record { calls = a.calls; after = a.after }
step-Attaching c (listening callback) a = record { calls = a.calls; after = a.after }
step-Attaching c (leaving callback) a = record { calls = a.calls; after = a.after }
step-Attaching c (registered now) a =
    if-both Attaching _ _ _ (λ t. record { calls = a.calls; after = a.after }) (λ f. a)
step-Attaching c starting a = record {
  calls = ground (arith, a.calls);
  after = λ h. ground (arith, a.after, h);
}
step-Attaching c teardown a = record { calls = a.calls; after = λ h. absurd (cc (h)) }

run-Attaching : (es : List Call) (c : ConnectionStatus) → Attaching c → Attaching (run c es)
unfolding run
run-Attaching [] c a = a
run-Attaching (e ∷ es) c a = run-Attaching es (step c e) (step-Attaching c e a)

-- After any history on a new module the source was attached once if there is one and the module
-- was started, and else never, however often it was started; what is attached was started.
pub attached_once :
    (source : Bool) (es : List Call)
    → let c = run (create_connection_status source) es in
      (c.attach_calls ≡ (if c.started then (if c.has_source then 1 else 0) else 0))
      × (c.attached ≡ true → (c.started ≡ true) × (c.has_source ≡ true))
unfolding create_connection_status
attached_once source es =
    let a =
      run-Attaching es (create_connection_status source)
        (record { calls = refl; after = λ h. absurd (cc (h)) }) in
    (a.calls, a.after)
