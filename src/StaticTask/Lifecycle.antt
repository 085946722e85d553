-- ===== src/StaticTask/Lifecycle.antt =====
-- src/st/config.rs: what `handle_task` does to the future in its memory.
use juggle.Prelude.{Bool, true, false, Option, none, some, List, [], ◌∷◌, ◌++◌, if◌then◌else◌}
use juggle.StaticTask.{
  Slot, Status, Effect, makes, polls, drops, Next, clear_slot, handle_task, after_poll,
}

module _ {F : Type 0} where
  -- The future that the memory holds.
  abbrev pub held : Slot F → Option F
  held (Slot.created f) = some f
  held _ = none

  -- The effects follow the rules of a memory for one future: one is written only where none is held,
  -- and the future that is polled or dropped is the one that is held, in the state in which it was
  -- left. The first and the last argument are what is held before and after.
  pub data Owned : Option F → List (Effect F) → Option F → Type 0 where
    rest : {o : Option F} → Owned o [] o
    write :
        {f : F} {es : List (Effect F)} {o : Option F}
        → Owned (some f) es o
        → Owned none (makes f ∷ es) o
    poll :
        {f g : F} {es : List (Effect F)} {o : Option F}
        → Owned (some g) es o
        → Owned (some f) (polls f g ∷ es) o
    drop :
        {f : F} {es : List (Effect F)} {o : Option F}
        → Owned none es o
        → Owned (some f) (drops f ∷ es) o

  -- A poll by `handle_task` and its end, for a future whose poll gives its next state and whether it
  -- is ready.
  abbrev pub poll_future : (F → F × Bool) → F → Slot F × List (Effect F)
  poll_future behaviour f =
      let p = behaviour f in
      let r = after_poll p.0 (if p.1 then none else some p.0) in (r.0, Effect.polls f p.0 ∷ r.1)

  -- One whole call of `handle_task`, with the future that `init` makes.
  unfoldable pub call : Status → F → (F → F × Bool) → Slot F → Slot F × List (Effect F)
  call status made behaviour slot =
      let h = handle_task status slot in
      elim h.next [
        | Next.returns ↦ (h.slot, h.effects)
        | Next.inits ↦ let r = poll_future behaviour made in (r.0, h.effects ++ makes made ∷ r.1)
        | Next.polls f ↦ let r = poll_future behaviour f in (r.0, h.effects ++ r.1)
      ]

  poll_future-Owned :
      (behaviour : F → F × Bool) (f : F)
      → let r = poll_future behaviour f in Owned (some f) r.1 (held r.0)
  unfolding after_poll
  poll_future-Owned behaviour f = by_ready (behaviour f).1
    where
      by_ready :
          (ready : Bool)
          → let r = after_poll (behaviour f).0 (if ready then none else some (behaviour f).0) in
            Owned (some f) (Effect.polls f (behaviour f).0 ∷ r.1) (held r.0)
      by_ready true = poll (drop rest)
      by_ready false = poll rest

  call-Owned :
      (status : Status) (made : F) (behaviour : F → F × Bool) (slot : Slot F)
      → let r = call status made behaviour slot in Owned (held slot) r.1 (held r.0)
  unfolding call handle_task clear_slot
  call-Owned Status.poll made behaviour Slot.uninit = write (poll_future-Owned behaviour made)
  call-Owned Status.poll made behaviour Slot.dropped = rest
  call-Owned Status.poll made behaviour (Slot.created f) = poll_future-Owned behaviour f
  call-Owned Status.restart made behaviour Slot.uninit = write (poll_future-Owned behaviour made)
  call-Owned Status.restart made behaviour Slot.dropped = write (poll_future-Owned behaviour made)
  call-Owned Status.restart made behaviour (Slot.created f) =
      drop (write (poll_future-Owned behaviour made))
  call-Owned Status.cancel made behaviour Slot.uninit = rest
  call-Owned Status.cancel made behaviour Slot.dropped = rest
  call-Owned Status.cancel made behaviour (Slot.created f) = drop rest
  call-Owned Status.uninit made behaviour Slot.uninit = rest
  call-Owned Status.uninit made behaviour Slot.dropped = rest
  call-Owned Status.uninit made behaviour (Slot.created f) = drop rest

  -- A life of the memory: calls with the status, what `init` makes, and what polls do.
  unfoldable pub lives : List (Status × F × (F → F × Bool)) → Slot F → Slot F × List (Effect F)
  lives [] slot = (slot, [])
  lives ((status, made, behaviour) ∷ cs) slot =
      let r = call status made behaviour slot in let q = lives cs r.0 in (q.0, r.1 ++ q.1)

  Owned-append :
      {a b c : Option F} {es fs : List (Effect F)}
      → Owned a es b
      → Owned b fs c
      → Owned a (es ++ fs) c
  Owned-append rest k = k
  Owned-append (write h) k = write (Owned-append h k)
  Owned-append (poll h) k = poll (Owned-append h k)
  Owned-append (drop h) k = drop (Owned-append h k)

  -- Whatever the calls of handle_task and their order, a future is written to the memory only when it
  -- holds none, and each future that is polled or dropped is the one that the memory holds, in the
  -- state in which its last poll left it: none is overwritten, none dropped twice, and none polled
  -- after its drop.
  pub lives-Owned :
      (cs : List (Status × F × (F → F × Bool))) (slot : Slot F)
      → Owned (held slot) (lives cs slot).1 (held (lives cs slot).0)
  unfolding lives
  lives-Owned [] slot = rest
  lives-Owned ((status, made, behaviour) ∷ cs) slot =
      Owned-append (call-Owned status made behaviour slot)
        (lives-Owned cs (call status made behaviour slot).0)
