-- ===== src/Event/Delivery.antt =====
-- What `Emitter::emit` of crates/agent-event/src/emitter.rs promises: the history is the ordered,
-- lossless record of what was emitted, and a tap is a bounded mirror of it.
use mathlib.Core.List.{append-nil, append_assoc}
use rof_harness.Base.{
  ◌≡◌, refl, sym, ap, ap₂, ◌∙◌, List, [], ◌∷◌, ◌++◌, map, arith, keep, if◌then◌else◌, Bool-cases,
  inl, inr,
}
use rof_harness.Host.{Host}
use rof_harness.Event.Types.{AgentEvent}
use rof_harness.Event.Emitter.{
  Emitter, Listener, Tap, deliver, try_send, any_panics, listener_panic, emit, emit_all,
}

module _ {H : Host} where
  -- What one emitted event adds to the record: itself, and one error frame if a listener panicked.
  unfoldable pub frames :
      List (Listener H) → List (AgentEvent H) → AgentEvent H → List (AgentEvent H)
  frames ls past event = event ∷ (if any_panics past event ls then listener_panic ∷ [] else [])

  -- The same for a sequence of events, each behind what the ones before it have added.
  unfoldable pub frames_of :
      List (Listener H) → List (AgentEvent H) → List (AgentEvent H) → List (AgentEvent H)
  unfolding frames
  frames_of ls past [] = []
  frames_of ls past (x ∷ xs) = frames ls past x ++ frames_of ls (past ++ frames ls past x) xs

  -- The events offered to one tap, in order.
  unfoldable pub offer : List (AgentEvent H) → Tap H → Tap H
  offer [] t = t
  offer (x ∷ xs) t = offer xs (try_send x t)

  history-emit :
      (e : Emitter H) (x : AgentEvent H)
      → ((emit e x).history ≡ e.history ++ frames e.listeners e.history x)
        × ((emit e x).listeners ≡ e.listeners)
  unfolding emit frames
  history-emit e x = ground (arith, append_assoc e.history (x ∷ []) (listener_panic ∷ []))

  -- Emitting a sequence of events extends the history by exactly those events in their order, each
  -- followed by one error frame where a listener panicked on it; a panic during that error frame
  -- adds nothing, and the listeners stay.
  pub history-emit_all :
      (e : Emitter H) (xs : List (AgentEvent H))
      → ((emit_all e xs).history ≡ e.history ++ frames_of e.listeners e.history xs)
        × ((emit_all e xs).listeners ≡ e.listeners)
  unfolding emit_all frames_of
  history-emit_all e [] = (sym (append-nil e.history), refl)
  history-emit_all e (x ∷ xs) =
      let (h, l) = history-emit e x in
      let (ih, il) = history-emit_all (emit e x) xs in
      let more = frames e.listeners e.history x in
      (
        rw (ih, h, l) (append_assoc e.history more (frames_of e.listeners (e.history ++ more) xs)),
        il ∙ l,
      )

  -- The taps whose receivers live.
  abbrev pub live : List (Tap H) → List (Tap H)
  live = keep (λ t. t.alive)

  deliver_lem : (x : AgentEvent H) (ts : List (Tap H)) → deliver x ts ≡ map (try_send x) (live ts)
  unfolding deliver
  deliver_lem x [] = refl
  deliver_lem x (t ∷ ts) = ground (arith, deliver_lem x ts)

  try_send_alive : (x : AgentEvent H) (t : Tap H) → (try_send x t).alive ≡ t.alive
  unfolding try_send
  try_send_alive x t = ground arith

  live-map-try_send :
      (x : AgentEvent H) (ts : List (Tap H))
      → live (map (try_send x) ts) ≡ map (try_send x) (live ts)
  live-map-try_send x [] = refl
  live-map-try_send x (t ∷ ts) = ground (arith, live-map-try_send x ts, try_send_alive x t)

  live-live : (ts : List (Tap H)) → live (live ts) ≡ live ts
  live-live [] = refl
  live-live (t ∷ ts) = ground (arith, live-live ts)

  map-offer-cons :
      (x : AgentEvent H) (xs : List (AgentEvent H)) (ts : List (Tap H))
      → map (offer xs) (map (try_send x) ts) ≡ map (offer (x ∷ xs)) ts
  unfolding offer
  map-offer-cons x xs [] = refl
  map-offer-cons x xs (t ∷ ts) = ap (◌∷◌ (offer xs (try_send x t))) (map-offer-cons x xs ts)

  offer-append :
      (xs ys : List (AgentEvent H)) (t : Tap H) → offer ys (offer xs t) ≡ offer (xs ++ ys) t
  unfolding offer
  offer-append [] ys t = refl
  offer-append (x ∷ xs) ys t = offer-append xs ys (try_send x t)

  map-offer-append :
      (xs ys : List (AgentEvent H)) (ts : List (Tap H))
      → map (offer ys) (map (offer xs) ts) ≡ map (offer (xs ++ ys)) ts
  map-offer-append xs ys [] = refl
  map-offer-append xs ys (t ∷ ts) = ap₂ (◌∷◌) (offer-append xs ys t) (map-offer-append xs ys ts)

  map-offer-nil : (ts : List (Tap H)) → map (offer []) ts ≡ ts
  unfolding offer
  map-offer-nil [] = refl
  map-offer-nil (t ∷ ts) = ap (◌∷◌ t) (map-offer-nil ts)

  offer_alive : (xs : List (AgentEvent H)) (t : Tap H) → (offer xs t).alive ≡ t.alive
  unfolding offer
  offer_alive [] t = refl
  offer_alive (x ∷ xs) t = offer_alive xs (try_send x t) ∙ try_send_alive x t

  live-map-offer :
      (xs : List (AgentEvent H)) (ts : List (Tap H))
      → live (map (offer xs) (live ts)) ≡ map (offer xs) (live ts)
  live-map-offer xs [] = refl
  live-map-offer xs (t ∷ ts) = ground (arith, live-map-offer xs ts, offer_alive xs t)

  map-offer_one :
      (x : AgentEvent H) (ts : List (Tap H)) → map (try_send x) ts ≡ map (offer (x ∷ [])) ts
  map-offer_one x ts = sym (map-offer-nil (map (try_send x) ts)) ∙ map-offer-cons x [] ts

  taps-emit :
      (e : Emitter H) (x : AgentEvent H)
      → (emit e x).taps ≡ map (offer (frames e.listeners e.history x)) (live e.taps)
  unfolding emit frames
  taps-emit e x = elim (Bool-cases (any_panics e.history x e.listeners)) [
    | inl panics ↦
        rw
          (
            panics,
            deliver_lem x e.taps,
            deliver_lem listener_panic _,
            live-map-try_send x (live e.taps),
            live-live e.taps,
          )
          (map-offer_one listener_panic (map (try_send x) (live e.taps))
            ∙ map-offer-cons x (listener_panic ∷ []) (live e.taps))
    | inr calm ↦ rw (calm, deliver_lem x e.taps) (map-offer_one x (live e.taps))
  ]

  -- After at least one event, the taps left are those whose receivers lived, and each has been
  -- offered exactly the frames that the history gained, in the same order.
  pub taps-emit_all :
      (e : Emitter H) (x : AgentEvent H) (xs : List (AgentEvent H))
      → (emit_all e (x ∷ xs)).taps
        ≡ map (offer (frames_of e.listeners e.history (x ∷ xs))) (live e.taps)
  unfolding emit_all frames_of
  taps-emit_all e x [] = rw (append-nil (frames e.listeners e.history x)) (taps-emit e x)
  taps-emit_all e x (y ∷ ys) =
      let (h, l) = history-emit e x in
      let more = frames e.listeners e.history x in
      let before = map (offer more) (live e.taps) in
      let next = emit e x in
      taps-emit_all next y ys
      ∙ ap (λ ts. map (offer (frames_of next.listeners next.history (y ∷ ys))) (live ts))
          (taps-emit e x)
      ∙ ap (map (offer (frames_of next.listeners next.history (y ∷ ys))))
          (live-map-offer more e.taps)
      ∙ ap₂ (λ ls past. map (offer (frames_of ls past (y ∷ ys))) before) l h
      ∙ map-offer-append more (frames_of e.listeners (e.history ++ more) (y ∷ ys)) (live e.taps)
