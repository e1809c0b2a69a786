-- ===== src/Tests/Schemas.antt =====
-- Validation by src/city2core/schema.py of one value against one schema.
use city.Base.{◌≡◌, refl, true, false, [], ◌∷◌}
use city.Model.Json.{Json, boolean, get, str, num, obj, arr, nil, cons, end, field, items}
use city.Schema.Equal.{json_equal}
use city.Schema.Equal.Laws.{distinct}
use city.Schema.Equal.Sound.{Same, json_equal-Same}
use city.Schema.Resolve.{SchemaStore}
use city.Schema.Validate
use city.Schema.Validate.Ends.{ends}
use city.Schema.Validate.Depth.{fits_document, validate_named-ends}

abbrev store : SchemaStore
store = record { documents = end; path_name = λ t. t; search = λ p t. true }

abbrev schema : Json
schema = obj (
    field "type" (str "object") (
      field "required" (arr (items ("title" ∷ []))) (
        field "properties"
          (obj
            (field "title" (obj (field "type" (str "string") (field "minLength" (num 1) end))) end))
          end)))

abbrev titled : Json
titled = obj (field "title" (str "Map") (field "tags" (arr (cons (num 1) nil)) end))

json_equal-Same_example :
    (distinct titled ≡ true → json_equal titled titled ≡ true)
    × ((w : Json) → json_equal titled w ≡ true → Same titled w)
json_equal-Same_example = json_equal-Same titled

-- schemas/v1/artifact.schema.json
abbrev artifact_schema : Json
artifact_schema = obj (
    field "$schema" (str "https://json-schema.org/draft/2020-12/schema") (
      field "$id" (str "https://p-u-c.github.io/city2/schemas/v1/artifact.schema.json") (
        field "title" (str "City2 content-addressed artifact v1") (
          field "type" (str "object") (
            field "required"
              (arr (
                items (
                  "schema_version" ∷ "artifact_id" ∷ "media_type" ∷ "byte_length" ∷ "sha256"
                  ∷ "storage_uri" ∷ "producer_run_id" ∷ "created_at" ∷ "sensitivity" ∷ [])))
              (field "properties"
                (obj (
                  field "schema_version" (obj (field "const" (str "city2.artifact/v1") end)) (
                    field "artifact_id"
                      (obj (field "$ref" (str "common.schema.json#/$defs/artifact_id") end))
                      (field "media_type"
                        (obj (
                          field "type" (str "string")
                            (field "pattern" (str "^[a-z0-9!#$&^_.+-]+/[a-z0-9!#$&^_.+-]+$") end)))
                        (field "byte_length"
                          (obj (field "type" (str "integer") (field "minimum" (num 0) end)))
                          (field "sha256"
                            (obj (field "$ref" (str "common.schema.json#/$defs/sha256") end))
                            (field "storage_uri"
                              (obj (field "$ref" (str "common.schema.json#/$defs/uri") end))
                              (field "producer_run_id"
                                (obj (field "$ref" (str "common.schema.json#/$defs/run_id") end))
                                (field "created_at"
                                  (obj
                                    (field "$ref" (str "common.schema.json#/$defs/date_time") end))
                                  (field "sensitivity"
                                    (obj (
                                      field "$ref" (str "common.schema.json#/$defs/sensitivity")
                                        end))
                                    (field "git_commit_sha1"
                                      (obj (
                                        field "$ref" (str "common.schema.json#/$defs/git_sha1")
                                          end))
                                      end)))))))))))
                (field "additionalProperties" (boolean false) end)))))))

-- the part of schemas/v1/common.schema.json that it refers to
abbrev common_schema : Json
common_schema = obj (
    field "$schema" (str "https://json-schema.org/draft/2020-12/schema") (
      field "$id" (str "https://p-u-c.github.io/city2/schemas/v1/common.schema.json") (
        field "title" (str "City2 v1 common definitions") (
          field "$defs"
            (obj (
              field "artifact_id"
                (obj (
                  field "type" (str "string") (
                    field "pattern"
                      (str
                        "^art_[0-9a-f]{8}-[0-9a-f]{4}-7[0-9a-f]{3}-[89ab][0-9a-f]{3}-[0-9a-f]{12}$")
                      end)))
                (field "sha256"
                  (obj (field "type" (str "string") (field "pattern" (str "^[0-9a-f]{64}$") end)))
                  (field "uri"
                    (obj (
                      field "type" (str "string")
                        (field "pattern" (str "^[a-z][a-z0-9+.-]*:.+$") end)))
                    (field "run_id"
                      (obj (
                        field "type" (str "string") (
                          field "pattern"
                            (str
                              "^run_[0-9a-f]{8}-[0-9a-f]{4}-7[0-9a-f]{3}-[89ab][0-9a-f]{3}-[0-9a-f]{12}$")
                            end)))
                      (field "date_time"
                        (obj (
                          field "type" (str "string") (
                            field "pattern"
                              (str
                                "^[0-9]{4}-[0-9]{2}-[0-9]{2}T[0-9]{2}:[0-9]{2}:[0-9]{2}(\\.[0-9]+)?Z$")
                              end)))
                        (field "sensitivity"
                          (obj (
                            field "enum"
                              (arr (
                                items ("public" ∷ "internal" ∷ "confidential" ∷ "restricted" ∷ [])))
                              end))
                          (field "git_sha1"
                            (obj (
                              field "type" (str "string")
                                (field "pattern" (str "^[0-9a-f]{40}$") end)))
                            end))))))))
            end))))

abbrev artifact_store : SchemaStore
artifact_store = record {
  documents =
      field "artifact.schema.json" artifact_schema (field "common.schema.json" common_schema end);
  path_name = λ t. t;
  search = λ p t. true;
}

-- Every reference leads into the common schema.
artifact_fits :
    fits_document artifact_store 6 "artifact.schema.json"
      (get "artifact.schema.json" artifact_store.documents)
    ≡ true
unfolding fits_document get items city.Model.Json.truthy city.Schema.Validate.Ends.fits
    city.Schema.Validate.Ends.shallow_fits city.Schema.Validate.Ends.fields_fit
    city.Schema.Validate.Ends.ref_fits city.Schema.Validate.Ends.target_fits
    city.Schema.Resolve.resolve
artifact_fits = refl

validate_named-ends_example :
    ends (Validate.validate_named artifact_store 6 titled "artifact.schema.json") ≡ true
validate_named-ends_example =
    validate_named-ends artifact_store 6 titled "artifact.schema.json" artifact_fits

accepts_titled :
    Validate.validate_instance store 4 titled schema "title.json" schema ≡ Validate.valid
unfolding Validate.validate_instance items
accepts_titled = refl

refuses_untitled :
    Validate.validate_instance store 4 (obj end) schema "title.json" schema ≡ Validate.invalid
unfolding Validate.validate_instance items
refuses_untitled = refl
