-- ===== src/Scanner/Events/Delivery.antt =====
-- Who gets an event.
use chainmonitor.Prelude.{◌≡◌, refl, true, List, [], ◌∷◌, ◌++◌, arith, if◌then◌else◌}
use chainmonitor.Scanner.Events.{
  Event, EventType, type_of, same_type, EventHandler, EventBus, subscribe, deliver, publish,
}

module _ {F W : Type 0} where
  deliver-append :
      (hs : List (EventHandler F W)) (h : EventHandler F W) (event : Event F) (w : W)
      → deliver (hs ++ h ∷ []) event w ≡ (h event (deliver hs event w)).0
  unfolding deliver
  deliver-append [] h event w = refl
  deliver-append (g ∷ hs) h event w = deliver-append hs h event (g event w).0

  -- A handler that is subscribed last runs after all the others, once, on the events of its type
  -- and on no others, also when handlers before it raise.
  pub publish-subscribe :
      (type : EventType) (h : EventHandler F W) (bus : EventBus F W) (event : Event F) (w : W)
      → publish (subscribe type h bus) event w ≡ (
          if same_type type (type_of event)
          then (h event (publish bus event w)).0
          else publish bus event w)
  unfolding publish subscribe
  publish-subscribe type h bus event w =
      ground (arith, deliver-append (bus.handlers (type_of event)) h event w)

  -- A handler that raises without having changed anything is as good as none.
  pub publish-failing :
      (type : EventType) (h : EventHandler F W) (bus : EventBus F W) (event : Event F) (w : W)
      → ((e : Event F) (v : W) → h e v ≡ (v, true))
      → publish (subscribe type h bus) event w ≡ publish bus event w
  publish-failing type h bus event w fails =
      ground (arith, publish-subscribe type h bus event w, fails event (publish bus event w))
