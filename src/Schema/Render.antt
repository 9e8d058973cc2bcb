-- ===== src/Schema/Render.antt =====
-- `SchemaMetadata.render` of db/schema.py: the schema as text for the prompt.
use insightkit.Prelude.{
  ℕ, Option, none, some, List, [], ◌∷◌, ◌++◌, Text, text, if◌then◌else◌, is_empty, map, take,
}
use insightkit.Prelude.Dict.{Dict}
use insightkit.Schema.{ColumnMeta, TableMeta}

-- `sep.join(parts)`
unfoldable pub join : Text → List Text → Text
join sep [] = []
join sep (s ∷ []) = s
join sep (s ∷ t ∷ ts) = s ++ (sep ++ join sep (t ∷ ts))

-- `' FK->' + c.fk_ref if c.fk_ref else ''`
abbrev pub fk_text : Option Text → Text
fk_text none = []
fk_text (some []) = []
fk_text (some (c ∷ ref)) = text " FK->" ++ c ∷ ref

unfoldable pub render_column : ColumnMeta → Text
render_column c =
    c.name
    ++ (text " " ++ (c.data_type ++ ((if c.is_pk then text " PK" else []) ++ fk_text c.fk_ref)))

-- `repr` prints the list of the samples.
module _ (repr : List Text → Text) where
  unfoldable pub sample_parts : Dict (List Text) → List Text
  sample_parts [] = []
  sample_parts ((col, vals) ∷ d) =
      let rest = sample_parts d in
      if is_empty vals then rest else (col ++ (text "=" ++ repr (take 5 vals))) ∷ rest

  abbrev pub sample_lines : Text → List Text
  sample_lines [] = []
  sample_lines (c ∷ cs) = (text "  samples: " ++ c ∷ cs) ∷ []

  unfoldable pub render_table : ℕ → TableMeta → List Text
  render_table max_cols t =
      (text "TABLE "
        ++ (t.name
            ++ (text " ("
                ++ (join (text ", ") (map render_column (take max_cols t.columns)) ++ text ")"))))
      ∷ sample_lines (join (text "; ") (sample_parts t.sample))

  unfoldable pub render_tables : ℕ → List TableMeta → List Text
  render_tables max_cols [] = []
  render_tables max_cols (t ∷ ts) = render_table max_cols t ++ render_tables max_cols ts

  -- `render(max_tables, max_cols_per_table)` of the tables
  unfoldable pub render : ℕ → ℕ → List TableMeta → Text
  render max_tables max_cols ts = join (text "\n") (render_tables max_cols (take max_tables ts))

-- The defaults of `render`
abbrev pub max_tables : ℕ
max_tables = 200

abbrev pub max_cols_per_table : ℕ
max_cols_per_table = 40
