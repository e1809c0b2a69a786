-- ===== src/Memory/Rows/Fresh.antt =====
-- What a record has for which `_stale_reason` of src/city2core/memory.py finds nothing.
use city.Base.{
  ℕ, leb, String, ◌≡◌, refl, sym, ◌∙◌, ap, ◌⊎◌, inl, inr, Bool, true, false, Option, none, some,
  List, [], ◌∷◌, text_eq, if◌then◌else◌,
}
use city.Model.Json.{Json, Fields, str, get}
use city.Model.Ids.{parse_time}
use city.Store.Rows.{Db}
use city.Store.Tx.{Env, Tx}
use city.Store.Post.{Views, look, weaken_view}
use city.Store.Post.Steps.{pure_lem, time_of_lem}
use city.Memory.Fields.Reads.{DictsAt, string_of_lem, text_at_lem, dicts_at_lem}
use city.Memory.Rows.{is_current, is_past, all_current, source_reason, expiry_reason, stale_reason}

-- `P` holds of every element.
unfoldable pub Every : {A : Type 0} → (A → Type 0) → List A → Type 0
Every P [] = Unit {0}
Every P (x ∷ l) = P x × Every P l

pub every_weaken :
    {A : Type 0} (P Q : A → Type 0) → ((x : A) → P x → Q x) → (l : List A) → Every P l → Every Q l
unfolding Every
every_weaken P Q f [] h = tt
every_weaken P Q f (x ∷ l) h = (f x h.0, every_weaken P Q f l h.1)

-- the status of a source is "current"
abbrev pub Current : Fields → Type 0
Current source = get "validity_status" source ≡ some (str "current")

-- a time that is missing, or after `now`
abbrev pub NotBefore : Env → Option Json → ℕ → Type 0
NotBefore env v now =
    (v ≡ none)
    ⊎ ((t : String) × (u : ℕ) × (v ≡ some (str t))
        × (parse_time env.fromisoformat t ≡ some u)
        × (leb u now ≡ false))

-- The record is valid at a time: it need not be checked again yet, it has not expired, and all its
-- sources are current.
pub record Fresh (env : Env) (d : Fields) (now : String) : Type 0 where
  pub current : ℕ
  pub revalidate_at : String
  pub due : ℕ
  pub refs : List Fields
  pub current_is : parse_time env.fromisoformat now ≡ some current
  pub revalidate_is : get "revalidate_at" d ≡ some (str revalidate_at)
  pub due_is : parse_time env.fromisoformat revalidate_at ≡ some due
  pub due_later : leb due current ≡ false
  pub expires : NotBefore env (get "valid_until" d) current
  pub refs_are : DictsAt "evidence_refs" d refs
  pub sources : Every Current refs

module _ {env : Env} {db : Db} where
  -- a block that branches on a test
  pub branch_view :
      {A : Type 0} {P : A → Type 0} (b : Bool) (m n : Tx A)
      → (b ≡ true → Views env db m P)
      → (b ≡ false → Views env db n P)
      → Views env db (if b then m else n) P
  branch_view true m n f g = f refl
  branch_view false m n f g = g refl

  -- a loop that branches on a test
  pub split_view :
      {A : Type 0} {P : A → Type 0} (b : Bool) (m n : Tx A)
      → (b ≡ true → Views env db m P)
      → (b ≡ false → Views env db n P)
      → Views env db (elim b [ true ↦ m | false ↦ n ]) P
  split_view true m n f g = f refl
  split_view false m n f g = g refl

  is_current_lem :
      (source : Fields) → Views env db (is_current source) (λ b. b ≡ true → Current source)
  unfolding is_current
  is_current_lem source = look (text_at_lem "validity_status" source) λ status found.
      weaken_view (pure_lem _)
        λ b e same. found ∙ ap (λ t. some (str t)) (text_eq status "current" (sym e ∙ same))

  pub all_current_lem :
      (refs : List Fields) → Views env db (all_current refs) (λ b. b ≡ true → Every Current refs)
  unfolding all_current Every
  all_current_lem [] = weaken_view (pure_lem _) λ _ _ _. tt
  all_current_lem (source ∷ refs) = look (is_current_lem source) λ current first.
      split_view current _ _ (λ e. weaken_view (all_current_lem refs) λ b rest h. (first e, rest h))
        (λ _. weaken_view (pure_lem _) λ b e h. absurd (cc))

  is_past_lem :
      (v : Option Json) (now : ℕ)
      → Views env db (is_past v now) (λ b. b ≡ false → NotBefore env v now)
  unfolding is_past
  is_past_lem none now = weaken_view (pure_lem _) λ _ _ _. inl refl
  is_past_lem (some v) now = look (string_of_lem v) λ t v_is.
      look (time_of_lem t)
        λ u time. weaken_view (pure_lem _) λ b e h. inr (t, u, ap some v_is, time, sym e ∙ h)

  pub stale_reason_lem :
      (d : Fields) (now : String)
      → Views env db (stale_reason d now) (λ r. r ≡ none → Fresh env d now)
  unfolding stale_reason expiry_reason source_reason
  stale_reason_lem d now = look (time_of_lem now) λ current c.
      look (text_at_lem "revalidate_at" d) λ again a. look (time_of_lem again) λ due du.
        branch_view (leb due current) _ _ (λ _. weaken_view (pure_lem _) λ r e h. absurd (cc))
          (λ later. look (is_past_lem _ current) λ expired x.
            branch_view expired _ _ (λ _. weaken_view (pure_lem _) λ r e h. absurd (cc))
              (λ fine. look (dicts_at_lem "evidence_refs" d) λ refs refs_are.
                look (all_current_lem refs) λ every all. weaken_view (pure_lem _) λ r e h. record {
                  current = current;
                  revalidate_at = again;
                  due = due;
                  refs = refs;
                  current_is = c;
                  revalidate_is = a;
                  due_is = du;
                  due_later = later;
                  expires = x fine;
                  refs_are = refs_are;
                  sources = all (no_reason every (sym e ∙ h));
                }))
    where
      no_reason :
          (b : Bool)
          → if◌then◌else◌ {A = Option String} b none (some "source_not_current") ≡ none
          → b ≡ true
      no_reason true h = refl
      no_reason false h = cc
