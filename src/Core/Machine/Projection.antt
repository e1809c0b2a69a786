-- ===== src/Core/Machine/Projection.antt =====
-- The projections of src/city2core/store.py beside the log: the marks that a row takes over from the
-- last event of its aggregate.
use city.Base.{
  String, ◌=?◌, ◌≡◌, ◌≢◌, sym, ap, subst, ◌∙◌, inl, inr, true, false, Option, some, List, [], ◌∷◌,
  arith, Bool-cases, if◌then◌else◌, text_eq,
}
use city.Model.Canonical.{Digest}
use city.Store.Rows.{Event}
use city.Store.Events.{latest, prior_version}
use city.Store.Integrity.Log.{Extends, IsChained, latest-cons}

-- The aggregate `id` has a last event, which is of the kind and has the property.
pub record Projected (kind id : String) (Marks : Event → Type 0) (events : List Event)
    : Type 0 where
  pub event : Event
  pub last : latest id events ≡ some event
  pub kind_is : event.aggregate_type ≡ kind
  pub marks : Marks event

-- Every row of a table carries the marks of the last event of its aggregate.
abbrev pub Projection :
    {R : Type 0} → (Event → R → Type 0) → String → (String → Option R) → List Event → Type 0
Projection {R = R} Marks kind table events =
    (id : String) (r : R) → table id ≡ some r → Projected kind id (λ e. Marks e r) events

-- No event of the aggregate is of another kind.
abbrev pub Kind : String → String → List Event → Type 0
Kind kind id events = (e : Event) → latest id events ≡ some e → e.aggregate_type ≡ kind

pub projected-Kind :
    {kind id : String} {Marks : Event → Type 0} {events : List Event}
    → Projected kind id Marks events
    → Kind kind id events
projected-Kind p e h = ground (arith, p.last, p.kind_is, h)

newest :
    (lib : Digest) (id : String) (e : Event) (l : List Event)
    → Extends lib e l
    → (e.aggregate_id =? id) ≡ true
    → latest id (e ∷ l) ≡ some e
newest lib id e l x same =
    latest-cons lib id e l x ∙ ap (λ b. if b then some e else latest id l) same

older :
    (lib : Digest) (id : String) (e : Event) (l : List Event)
    → Extends lib e l
    → (e.aggregate_id =? id) ≡ false
    → latest id (e ∷ l) ≡ latest id l
older lib id e l x other =
    latest-cons lib id e l x ∙ ap (λ b. if b then some e else latest id l) other

-- The versions of a chained log start at 1.
pub unborn-Kind :
    (lib : Digest) (kind id : String) (l : List Event)
    → IsChained lib l
    → prior_version (latest id l) ≡ 0
    → Kind kind id l
unfolding latest
unborn-Kind lib kind id [] c h e there = absurd (cc there)
unborn-Kind lib kind id (x ∷ l) (extends, c) h e there = elim (Bool-cases (x.aggregate_id =? id)) [
  | inl same ↦
      let version = ap prior_version (sym (newest lib id x l extends same)) ∙ h in
      absurd (ground (arith, version, extends.version))
  | inr other ↦
      let kept = older lib id x l extends other in
      unborn-Kind lib kind id l c (ap prior_version (sym kept) ∙ h) e (sym kept ∙ there)
]

pub some_eq : {R : Type 0} {x y : R} → ◌≡◌ {A = Option R} (some x) (some y) → x ≡ y
some_eq h = cc

module _ {R : Type 0} {Marks : Event → R → Type 0} {lib : Digest} {event : Event}
    {events : List Event} {kind : String} (extends : Extends lib event events)
    (is_kind : event.aggregate_type ≡ kind) where
  -- A row of another kind keeps its last event.
  pub others-Projection :
      {other : String} {table after : String → Option R}
      → other ≢ kind
      → Kind kind event.aggregate_id events
      → ((id : String) → after id ≡ table id)
      → Projection Marks other table events
      → Projection Marks other after (event ∷ events)
  others-Projection apart owner same before id r found =
      let p = before id r (sym (same id) ∙ found) in
      elim (Bool-cases (event.aggregate_id =? id)) [
        | inl e ↦
            let named = text_eq event.aggregate_id id e in
            let k =
              owner p.event (subst (λ i. latest i events ≡ some p.event) (sym named) p.last) in
            absurd (apart (sym p.kind_is ∙ k))
        | inr e ↦ record {
          event = p.event;
          last = older lib id event events extends e ∙ p.last;
          kind_is = p.kind_is;
          marks = p.marks;
        }
      ]

  -- The row of the new event takes its marks, and the others of the table keep theirs.
  pub own-Projection :
      {table after : String → Option R} (new : R)
      → ((id : String) → after id ≡ (if event.aggregate_id =? id then some new else table id))
      → Marks event new
      → Projection Marks kind table events
      → Projection Marks kind after (event ∷ events)
  own-Projection {table = table} new written marks before id r found =
      elim (Bool-cases (event.aggregate_id =? id)) [
        | inl e ↦ record {
          event = event;
          last = newest lib id event events extends e;
          kind_is = is_kind;
          marks =
              subst (Marks event) {x = new}
                (some_eq (sym (written id ∙ ap (λ b. if b then some new else table id) e) ∙ found))
                marks;
        }
        | inr e ↦
            let p =
              before id r
                (sym (written id ∙ ap (λ b. if b then some new else table id) e) ∙ found) in
            record {
              event = p.event;
              last = older lib id event events extends e ∙ p.last;
              kind_is = p.kind_is;
              marks = p.marks;
            }
      ]
