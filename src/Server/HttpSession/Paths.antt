-- ===== src/Server/HttpSession/Paths.antt =====
-- The path of a file that is served, and its type.
use gss.Base.{
  ℕ, ◌≡◌, refl, true, false, List, [], ◌∷◌, ◌++◌, map, arith, ◌==◌, if◌then◌else◌, append_assoc, ap,
  ap₂, sym, ◌∙◌, Bool-cases, inl, inr,
}
use gss.Base.Text.{Text, codes, contains}
use gss.Server.HttpSession.Names.{
  Comparison, to_lower, extension_from, extension, mime_lookup, mime_types, mime_type, strip_slash,
  path_cat, ends_with_slash, file_path,
}
use gss.Server.HttpSession.Handler.{illegal_target}

abbrev pub dots : Text
dots = codes ".."

-- No ".." arises where a text without one meets a slash.
dots-append_slash :
    (base rest : Text)
    → contains dots base ≡ false
    → contains dots (b'/' ∷ rest) ≡ false
    → contains dots (base ++ (b'/' ∷ rest)) ≡ false
unfolding contains
dots-append_slash [] rest p q = q
dots-append_slash (x ∷ []) rest p q = ground arith
dots-append_slash (x ∷ y ∷ base) rest p q = ground (arith, dots-append_slash (y ∷ base) rest)

dots-strip_slash :
    (text : Text) → contains dots text ≡ false → contains dots (strip_slash text) ≡ false
unfolding contains strip_slash
dots-strip_slash [] p = p
dots-strip_slash (c ∷ []) p = ground arith
dots-strip_slash (c ∷ d ∷ []) p = ground arith
dots-strip_slash (c ∷ d ∷ e ∷ text) p = ground (arith, dots-strip_slash (d ∷ e ∷ text))

dots-index :
    (path : Text)
    → ends_with_slash path ≡ true
    → contains dots path ≡ false
    → contains dots (path ++ codes "index.html") ≡ false
unfolding contains ends_with_slash
dots-index [] e p = cc
dots-index (c ∷ []) e p = ground arith
dots-index (c ∷ d ∷ path) e p = ground (arith, dots-index (d ∷ path))

path_cat-strip : (base path : Text) → path_cat base path ≡ strip_slash base ++ path
unfolding path_cat
path_cat-strip [] path = refl
path_cat-strip (c ∷ base) path = refl

-- What follows the document root: the target, and the index of a directory.
abbrev below_root : Text → Text
below_root target = if ends_with_slash target then target ++ codes "index.html" else target

file_path-below :
    (root target : Text) → file_path root target ≡ strip_slash root ++ below_root target
unfolding file_path
file_path-below root target = elim (Bool-cases (ends_with_slash target)) [
  | inl e ↦ rw (e, path_cat-strip) (append_assoc (strip_slash root) target (codes "index.html"))
  | inr e ↦ rw (e, path_cat-strip)
]

legal-below :
    (target : Text)
    → illegal_target target ≡ false
    → (rest : Text) × (below_root target ≡ b'/' ∷ rest)
      × (contains dots (below_root target) ≡ false)
unfolding illegal_target
legal-below [] h = cc
legal-below (c ∷ rest) h = elim (Bool-cases (ends_with_slash (c ∷ rest))) [
  | inl e ↦ rw e (
    rest ++ codes "index.html",
    ap (λ d. d ∷ rest ++ codes "index.html") slash,
    dots-index (c ∷ rest) e clean,
  )
  | inr e ↦ rw e (rest, ap (λ d. d ∷ rest) slash, clean)
]
  where
    slash : c ≡ b'/'
    slash = ground arith

    clean : contains dots (c ∷ rest) ≡ false
    clean = ground arith

-- The path that is opened for a legal target is the document root, less a slash at its end,
-- followed by a slash and more; and if the root has no ".." in it, nor has the path.
pub file_path-inside :
    (root target : Text)
    → illegal_target target ≡ false
    → contains dots root ≡ false
    → (rest : Text) × (file_path root target ≡ strip_slash root ++ (b'/' ∷ rest))
      × (contains dots (file_path root target) ≡ false)
file_path-inside root target legal clean =
    let (rest, e, below) = legal-below target legal in
    let path = file_path-below root target ∙ ap (λ t. strip_slash root ++ t) e in
    (
      rest,
      path,
      rw path
          (dots-append_slash (strip_slash root) rest (dots-strip_slash root clean) (rw e at below)),
    )

to_lower-dot : (c : ℕ) → (to_lower c == b'.') ≡ (c == b'.')
unfolding to_lower
to_lower-dot c = ground arith

extension_from-lower :
    (path found : Text)
    → map to_lower (extension_from path found)
      ≡ extension_from (map to_lower path) (map to_lower found)
unfolding extension_from
extension_from-lower [] found = refl
extension_from-lower (c ∷ path) found =
    ground
      (arith, to_lower-dot c, extension_from-lower path (c ∷ path), extension_from-lower path found)

to_lower_idem : (s : Text) → map to_lower (map to_lower s) ≡ map to_lower s
unfolding to_lower
to_lower_idem [] = refl
to_lower_idem (c ∷ s) = ap₂ ◌∷◌ (ground arith) (to_lower_idem s)

iequals-lower : (c : Comparison) (s e : Text) → c.iequals (map to_lower s) e ≡ c.iequals s e
iequals-lower c s e = elim (Bool-cases (c.iequals s e)) [
  | inl p ↦ (c.iequals_iff (map to_lower s) e).1 (to_lower_idem s ∙ (c.iequals_iff s e).0 p) ∙ sym p
  | inr p ↦ elim (Bool-cases (c.iequals (map to_lower s) e)) [
    | inl q ↦
        let equal = sym (to_lower_idem s) ∙ (c.iequals_iff (map to_lower s) e).0 q in
        cc (p, (c.iequals_iff s e).1 equal)
    | inr q ↦ q ∙ sym p
  ]
]

mime_lookup-lower :
    (c : Comparison) (s : Text) (types : List (Text × Text))
    → mime_lookup c.iequals (map to_lower s) types ≡ mime_lookup c.iequals s types
unfolding mime_lookup
mime_lookup-lower c s [] = refl
mime_lookup-lower c s ((e, type) ∷ types) =
    rw (iequals-lower c s e)
      (ap (λ t. if c.iequals s e then type else t) (mime_lookup-lower c s types))

-- The type of a path is the type of the path with its ASCII letters made small.
pub mime_type-lower :
    (c : Comparison) (path : Text) → mime_type c (map to_lower path) ≡ mime_type c path
unfolding mime_type extension
mime_type-lower c path =
    ap (λ e. mime_lookup c.iequals e mime_types) (sym (extension_from-lower path []))
    ∙ mime_lookup-lower c (extension_from path []) mime_types
