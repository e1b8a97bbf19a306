-- ===== src/Parser/Documents.antt =====
-- The documents of a manifest.
use podman_swarm.Base.{
  map, ◌≢◌, inl, inr, Bool-cases, ℕ, zero, suc, ◌≤◌, ◌≡◌, refl, ap, ◌∙◌, false, Option, some, List,
  [], ◌∷◌, ◌++◌, length, take, leb, length-append, All, ok, arith,
}
use podman_swarm.Base.Text.{Text, ◌==◌, eq_iff}
use podman_swarm.Base.Text.Affix.{has_prefix, has_prefix-append}
use podman_swarm.Kube.{Object}
use podman_swarm.Base.Text.Space.{trim_space}
use podman_swarm.Parser.{push, split_at, separator, decode_all, parse_manifest}

-- A document inside which no separator begins, also not with dashes of the separator behind it.
abbrev pub Whole : Text → Type 0
Whole [] = Unit
Whole (c ∷ s) = (has_prefix ((c ∷ s) ++ separator) separator ≡ false) × Whole s

take-append_short : (n : ℕ) (s t : Text) → n ≤ length s → take n (s ++ t) ≡ take n s
take-append_short zero s t h = refl
take-append_short (suc n) [] t h = absurd (omega arith)
take-append_short (suc n) (c ∷ s) t h = ap (λ r. c ∷ r) (take-append_short n s t (omega arith))

-- What stands behind a separator does not matter.
has_prefix-behind :
    (s t : Text)
    → has_prefix ((s ++ separator) ++ t) separator ≡ has_prefix (s ++ separator) separator
unfolding has_prefix
has_prefix-behind s t =
    let n = length-append (s ++ separator) t in
    let m = length-append s separator in
    ground (arith, take-append_short 3 (s ++ separator) t (omega arith))

skip_passed :
    (sep : Text) (skipped t : Text)
    → split_at sep (length skipped) (skipped ++ t) ≡ split_at sep 0 t
unfolding split_at
skip_passed sep [] t = refl
skip_passed sep (c ∷ skipped) t = skip_passed sep skipped t

-- The text up to a separator is the first piece.
split_at-document :
    (doc t : Text)
    → Whole doc
    → split_at separator 0 ((doc ++ separator) ++ t) ≡ doc ∷ split_at separator 0 t
unfolding split_at push
split_at-document [] t w = ground (arith, has_prefix-append separator t)
split_at-document (c ∷ s) t w =
    ground (arith, has_prefix-behind (c ∷ s) t, split_at-document s t w.1)

no_prefix :
    (s : Text) → has_prefix (s ++ separator) separator ≡ false → has_prefix s separator ≡ false
unfolding has_prefix
no_prefix s h = elim (Bool-cases (leb 3 (length s))) [
  | inl e ↦
      ground (arith, take-append_short 3 s separator (ground arith), length-append s separator)
  | inr e ↦ ground arith
]

split_at-last : (doc : Text) → Whole doc → split_at separator 0 doc ≡ doc ∷ []
unfolding split_at push
split_at-last [] w = refl
split_at-last (c ∷ s) w = ground (arith, no_prefix (c ∷ s) w.0, split_at-last s w.1)

-- The documents with a separator between any two.
pub join_documents : List Text → Text
join_documents [] = []
join_documents (doc ∷ []) = doc
join_documents (doc ∷ next ∷ docs) = (doc ++ separator) ++ join_documents (next ∷ docs)

split_at-join_documents :
    (doc : Text) (docs : List Text)
    → Whole doc
    → All Whole docs
    → split_at separator 0 (join_documents (doc ∷ docs)) ≡ doc ∷ docs
unfolding join_documents
split_at-join_documents doc [] w ws = split_at-last doc w
split_at-join_documents doc (next ∷ docs) w ws =
    split_at-document doc (join_documents (next ∷ docs)) w
    ∙ ap (λ r. doc ∷ r) (split_at-join_documents next docs ws.0 ws.1)

-- The document is not blank and decodes to the object.
abbrev pub IsDocument : (Text → Option Object) → Text × Object → Type 0
IsDocument decode d = Whole d.0 × (trim_space d.0 ≢ []) × (decode (trim_space d.0) ≡ some d.1)

decode_all-documents :
    (decode : Text → Option Object) (docs : List (Text × Object))
    → All (IsDocument decode) docs
    → decode_all decode (map (λ d. d.0) docs) ≡ ok (map (λ d. d.1) docs)
unfolding decode_all
decode_all-documents decode [] v = refl
decode_all-documents decode ((t, o) ∷ docs) v =
    ground (arith, decode_all-documents decode docs v.1, eq_iff (trim_space t) [])

Whole-documents :
    (decode : Text → Option Object) (docs : List (Text × Object))
    → All (IsDocument decode) docs
    → All Whole (map (λ d. d.0) docs)
Whole-documents decode [] v = tt
Whole-documents decode (d ∷ docs) v = (v.0.0, Whole-documents decode docs v.1)

-- A manifest of documents with a separator between any two is read as their objects in order, when
-- every document decodes, is not blank, and has no separator inside, nor a dash at its end.
pub parse_manifest-join_documents :
    (decode : Text → Option Object) (docs : List (Text × Object))
    → All (IsDocument decode) docs
    → parse_manifest decode (join_documents (map (λ d. d.0) docs)) ≡ ok (map (λ d. d.1) docs)
unfolding parse_manifest join_documents
parse_manifest-join_documents decode [] v = unfold split_at decode_all trim_space ◌==◌ in refl
parse_manifest-join_documents decode (d ∷ docs) v =
    ap (decode_all decode)
      (split_at-join_documents d.0 (map (λ d. d.0) docs) v.0.0 (Whole-documents decode docs v.1))
    ∙ decode_all-documents decode (d ∷ docs) v
