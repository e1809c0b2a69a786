-- ===== src/Memory/Pack/Bounds.antt =====
-- The token budgets of the packing loop of src/city2core/memory.py.
use Prim.Native.Char.{Char}
use Prim.Native.String.{count}
use Prim.Native.String.count.{nil as count-nil, cons as count-cons}
use city.Base.{
  ℕ, zero, suc, ◌+◌, ◌-◌, ◌*◌, ◌≤◌, ltb, ◌==◌, String, ◌=?◌, ◌≡◌, refl, Bool, true, false, List, [],
  ◌∷◌, arith, if◌then◌else◌, text_eq, if-cases, ap,
}
use city.Memory.Retrieve.{Exclusion}
use city.Memory.Rows.Fresh.{Every}
use city.Memory.Text.{token_count, take_text, rstrip}
use city.Memory.Pack.{
  Entry, Selected, Packing, append, selection, leave_out, take_in, cut_excerpt, pack_one, pack,
  empty_packing,
}

count-take_text : (n : ℕ) (s : String) → count (take_text n s) ≤ n
unfolding take_text
count-take_text zero s = let h = count-nil in omega arith
count-take_text (suc n) String.[] = let h = count-nil in omega arith
count-take_text (suc n) (String.◌∷◌ c s) =
    let h = count-take_text n s in let k = count-cons c (take_text n s) in omega arith

count_stripped :
    (b : Bool) (c : Char) (s t : String)
    → count t ≤ count s
    → count (if b then "" else String.◌∷◌ c t) ≤ count (String.◌∷◌ c s)
count_stripped true c s t h = let k = count-nil in omega arith
count_stripped false c s t h = let k = count-cons c s in let l = count-cons c t in omega arith

count-rstrip : (space : Char → Bool) (s : String) → count (rstrip space s) ≤ count s
unfolding rstrip
count-rstrip space String.[] = omega arith
count-rstrip space (String.◌∷◌ c s) = count_stripped _ c s (rstrip space s) (count-rstrip space s)

-- An excerpt is cut to the tokens that remain.
token_count-cut_excerpt :
    (space : Char → Bool) (remaining : ℕ) (t : String)
    → token_count (cut_excerpt space remaining t) ≤ remaining
unfolding token_count cut_excerpt
token_count-cut_excerpt space remaining t =
    let cut = count-take_text (remaining * 4) t in
    let stripped = count-rstrip space (take_text (remaining * 4) t) in omega arith

-- the tokens of the excerpts of a section, counted again from their texts
unfoldable pub section_tokens : String → List Selected → ℕ
section_tokens s [] = 0
section_tokens s (x ∷ l) =
    let rest = section_tokens s l in if x.section =? s then token_count x.excerpt + rest else rest

section_tokens-append :
    (s : String) (x : Selected) (l : List Selected)
    → section_tokens s (append x l)
      ≡ section_tokens s l + (if x.section =? s then token_count x.excerpt else 0)
unfolding section_tokens append
section_tokens-append s x [] = ground arith
section_tokens-append s x (y ∷ l) = let h = section_tokens-append s x l in ground arith

every-append :
    {A : Type 0} (P : A → Type 0) (x : A) (l : List A) → P x → Every P l → Every P (append x l)
unfolding Every append
every-append P x [] p h = (p, tt)
every-append P x (y ∷ l) p h = (h.0, every-append P x l p h.1)

-- The excerpts of every section have at most the section's budget of tokens, and what is stored as
-- an excerpt's number of tokens is that of its text.
pub record Fits (budget : String → ℕ) (p : Packing) : Type 0 where
  pub within : (s : String) → p.used s ≤ budget s
  pub counted : (s : String) → section_tokens s p.selected ≡ p.used s
  pub stored : Every (λ x. x.token_count ≡ token_count x.excerpt) p.selected

module _ {budget : String → ℕ} (e : Entry) where
  leave_out-Fits : (p : Packing) → Fits budget p → Fits budget (leave_out e p)
  unfolding leave_out
  leave_out-Fits p f = record { within = f.within; counted = f.counted; stored = f.stored }

  take_in-Fits :
      (excerpt : String) (cut : Bool) (p : Packing)
      → p.used e.section + token_count excerpt ≤ budget e.section
      → Fits budget p
      → Fits budget (take_in e excerpt cut p)
  unfolding take_in
  take_in-Fits excerpt cut p room f = record {
    within = λ s.
        if-cases (λ n. n ≤ budget s) (e.section =? s) _ _
          (λ same. let eq = ap budget (text_eq e.section s same) in omega arith)
          (λ other. f.within s);
    counted = λ s.
        counted s (e.section =? s) refl (section_tokens-append s (selection e excerpt) p.selected)
          (f.counted s);
    stored = every-append _ (selection e excerpt) p.selected refl f.stored;
  }
    where
      counted :
          (s : String) (b : Bool)
          → (e.section =? s) ≡ b
          → section_tokens s (append (selection e excerpt) p.selected)
            ≡ section_tokens s p.selected + (if b then token_count excerpt else 0)
          → section_tokens s p.selected ≡ p.used s
          → section_tokens s (append (selection e excerpt) p.selected)
            ≡ (if b then p.used e.section + token_count excerpt else p.used s)
      counted s true same new old = let eq = ap p.used (text_eq e.section s same) in omega arith
      counted s false other new old = omega arith

  pack_one-Fits :
      (space : Char → Bool) (p : Packing) → Fits budget p → Fits budget (pack_one space budget e p)
  unfolding pack_one
  pack_one-Fits space p f =
      let left = budget e.section - p.used e.section in
      let excerpt = cut_excerpt space left e.statement in
      if-cases (Fits budget) (left == 0) _ _ (λ full. leave_out-Fits p f)
        (λ free.
          if-cases (Fits budget) (ltb left (token_count e.statement)) _ _
            (λ long.
              if-cases (Fits budget) (count excerpt == 0) _ _ (λ empty. leave_out-Fits p f)
                (λ some.
                  let fits = token_count-cut_excerpt space left e.statement in
                  let within = f.within e.section in take_in-Fits excerpt true p (omega arith) f))
            (λ short.
              let within = f.within e.section in take_in-Fits e.statement false p (ground arith) f))

module _ {budget : String → ℕ} (space : Char → Bool) where
  packs-Fits :
      (entries : List Entry) (p : Packing)
      → Fits budget p
      → Fits budget (pack space budget entries p)
  unfolding pack
  packs-Fits [] p f = f
  packs-Fits (e ∷ l) p f = packs-Fits l (pack_one space budget e p) (pack_one-Fits e space p f)

empty_packing-Fits :
    (budget : String → ℕ) (excluded : List Exclusion) → Fits budget (empty_packing excluded)
unfolding section_tokens Every
empty_packing-Fits budget excluded = record {
  within = λ s. omega arith;
  counted = λ s. refl;
  stored = tt;
}

-- However the records are packed, the texts of the excerpts chosen for a section have together no
-- more tokens than its budget, the loop counts as used what these texts have, and the number stored
-- with an excerpt is that of its text.
pub pack-Fits :
    (space : Char → Bool) (budget : String → ℕ) (entries : List Entry) (excluded : List Exclusion)
    → Fits budget (pack space budget entries (empty_packing excluded))
pack-Fits space budget entries excluded =
    packs-Fits space entries (empty_packing excluded) (empty_packing-Fits budget excluded)
