-- ===== src/Probes/Probe/Widening.antt =====
-- How one more filter changes what a probe of zentral/core/probes/base.py accepts.
use zentral.Base.{
  Bool, List, String, [], arith, false, if◌then◌else◌, is_empty, not, sym, truthy, ◌&&◌, ◌||◌, ◌∙◌,
  ◌∷◌, ◌≡◌,
}
use mathlib.Core.Path.{ap₂}
use zentral.Probes.Payload.{Value}
use zentral.Probes.Filters.{PayloadItem, test_event_payload}
use zentral.Probes.Probe.{
  Settings, Probe, Event, test_event, test_machine, test_payload, test_type, accepts, test_metadata,
}

abbrev with_payload : List (List PayloadItem) → Probe → Probe
with_payload fs p = record p { payload_filters = fs }

-- What an event must pass before its payload is tested.
gate : Settings → Probe → Event → Bool
gate c p e =
    p.loaded
    && (not (truthy e.metadata.machine_serial_number && not (test_machine p e.metadata.machine))
        && test_type c p e)

gated :
    (l m t a : Bool)
    → (if not l then false else if m then false else if not t then false else a)
      ≡ ((l && (not m && t)) && a)
gated l m t a = ground arith

with_payload_lem :
    (str : Value → String) (c : Settings) (fs : List (List PayloadItem)) (p : Probe) (e : Event)
    → test_event str c (with_payload fs p) e
      ≡ (gate c p e && accepts (λ f. test_event_payload str f e.payload) fs)
unfolding test_event test_payload test_machine test_metadata gate
with_payload_lem str c fs p e =
    gated p.loaded
      (truthy e.metadata.machine_serial_number && not (test_machine p e.metadata.machine))
      (test_type c p e) (accepts (λ f. test_event_payload str f e.payload) fs)

one_more :
    {A : Type 0} (g : Bool) (q : A → Bool) (f : A) (fs : List A)
    → (g && accepts q (f ∷ fs)) ≡ (
        if is_empty fs
        then (g && accepts q fs) && q f
        else (g && accepts q fs) || (g && accepts q (f ∷ [])))
one_more g q f [] = ground arith
one_more g q f (x ∷ fs) = ground arith

-- The first payload filter of a probe narrows what it accepts to the events that match it. Any other
-- one widens it: the probe then accepts what it accepted, and what it would with this filter alone.
add_payload_filter :
    (str : Value → String) (c : Settings) (f : List PayloadItem) (p : Probe) (e : Event)
    → test_event str c (with_payload (f ∷ p.payload_filters) p) e ≡ (
        if is_empty p.payload_filters
        then test_event str c p e && test_event_payload str f e.payload
        else test_event str c p e || test_event str c (with_payload (f ∷ []) p) e)
add_payload_filter str c f p e =
    with_payload_lem str c (f ∷ p.payload_filters) p e
    ∙ one_more (gate c p e) (λ x. test_event_payload str x e.payload) f p.payload_filters
    ∙ sym (
        ap₂
          (λ a b.
            if is_empty p.payload_filters then a && test_event_payload str f e.payload else a || b)
          (with_payload_lem str c p.payload_filters p e) (with_payload_lem str c (f ∷ []) p e))
