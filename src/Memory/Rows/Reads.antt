-- ===== src/Memory/Rows/Reads.antt =====
-- The postconditions of the lookups of src/city2core/memory.py.
use city.Base.{String, ◌≡◌, refl, sym, ap, ◌∙◌, some, Option, none, List, [], ◌∷◌}
use city.Model.Json.{Json, Fields, str, arr, get, items}
use city.Store.Rows.{Db}
use city.Store.Table.{find}
use city.Store.Tx.{Env, pure}
use city.Store.Post.{Views, look, weaken_view}
use city.Store.Post.Steps.{Any, reads_lem, or_raise_lem, pure_lem, asks_lem}
use city.Memory.Fields.{string_of}
use city.Memory.Fields.Reads.{DictsAt, Each, string_of_lem, texts_at_lem, dicts_at_lem, collect_lem}
use city.Memory.Text.{normalize_text, join_text}
use city.Memory.Rows.{
  memory_key, memory_row, text_column, shown_field, source_parts, source_text, labels_text,
}

-- a function at every element
unfoldable pub mapped : {A B : Type 0} → (A → B) → List A → List B
mapped g [] = []
mapped g (x ∷ l) = g x ∷ mapped g l

-- the text of a field, and nothing where there is none
unfoldable pub shown_text : Option Json → String
shown_text (some (str t)) = t
shown_text _ = ""

-- the four fields of a source that the index shows
unfoldable pub shown_source : Fields → String
shown_source source = join_text " " (
    shown_text (get "authoritative_owner" source)
    ∷ shown_text (get "uri" source)
    ∷ shown_text (get "path" source)
    ∷ shown_text (get "source_revision" source)
    ∷ [])

Each-map :
    {A B : Type 0} (g : A → B) (l : List A) (m : List B)
    → Each (λ x y. y ≡ g x) l m
    → m ≡ mapped g l
unfolding Each mapped
Each-map g [] [] h = refl
Each-map g [] (y ∷ m) h = absurd h
Each-map g (x ∷ l) [] h = absurd h
Each-map g (x ∷ l) (y ∷ m) h = let first = h.0 in let rest = Each-map g l m h.1 in cc

module _ {env : Env} {db : Db} where
  pub memory_row_lem :
      (id : String) → Views env db (memory_row id) (λ r. find memory_key id db.memories ≡ some r)
  unfolding memory_row
  memory_row_lem id = look (reads_lem _) λ row e. weaken_view (or_raise_lem _ row) λ r f. sym e ∙ f

  pub text_column_lem : (v : Option Json) → Views env db (text_column v) Any
  unfolding text_column
  text_column_lem none = weaken_view (pure_lem _) λ _ _. tt
  text_column_lem (some v) = look (string_of_lem v) λ t _. weaken_view (pure_lem _) λ _ _. tt

  shown_field_lem :
      (k : String) (d : Fields) → Views env db (shown_field k d) (λ t. t ≡ shown_text (get k d))
  unfolding shown_field shown_text
  shown_field_lem k d = shown (get k d)
    where
      shown :
          (v : Option Json)
          → Views {A = String} env db
              (elim v [ none ↦ pure "" | some j ↦ string_of j ])
              (λ t. t ≡ shown_text v)
      shown none = pure_lem ""
      shown (some j) = weaken_view (string_of_lem j) λ t e. ap (λ x. shown_text (some x)) (sym e)

  source_parts_lem :
      (source : Fields)
      → Views env db (source_parts source) (λ parts. join_text " " parts ≡ shown_source source)
  unfolding source_parts shown_source mapped
  source_parts_lem source =
      weaken_view
        (collect_lem (λ k t. t ≡ shown_text (get k source)) _ (λ k. shown_field_lem k source) _)
        λ parts are. ap (join_text " ") (Each-map (λ k. shown_text (get k source)) _ parts are)

  pub source_text_lem :
      (d : Fields)
      → Views env db (source_text d) (λ t.
        (refs : List Fields) × DictsAt "evidence_refs" d refs
        × (t ≡ normalize_text env (join_text " " (mapped shown_source refs))))
  unfolding source_text
  source_text_lem d = look (dicts_at_lem _ d) λ refs refs_are.
      look
        (collect_lem (λ source t. t ≡ shown_source source) _
          (λ source.
            look (source_parts_lem source) λ parts e. weaken_view (pure_lem _) λ t same. same ∙ e)
          refs)
        λ texts are. weaken_view (asks_lem _) λ t same. (
          refs,
          refs_are,
          same
              ∙ ap (λ l. normalize_text env (join_text " " l))
                  (Each-map shown_source refs texts are),
        )

  pub labels_text_lem :
      (d : Fields)
      → Views env db (labels_text d) (λ t.
        (labels : List String) × (get "labels" d ≡ some (arr (items labels)))
        × (t ≡ normalize_text env (join_text " " labels)))
  unfolding labels_text
  labels_text_lem d =
      look (texts_at_lem _ d) λ labels are. weaken_view (asks_lem _) λ t same. (labels, are, same)
