-- ===== src/Wrapper/Allowed/Kinds.antt =====
-- The kinds of `php://` streams of src/sp_wrapper.c, in any case of their letters.
use snuffleupagus.Base.{
  ◌≡◌, refl, sym, ◌∙◌, ◌↔◌, inl, inr, arith, Bool, true, false, [], ◌∷◌, ◌++◌, map, Option, none,
  some, Bytes, codes, to_lower, equals, equals_iff, equals_ci, starts_with, starts_with_ci, ◌==◌,
  if◌then◌else◌, Bool-cases,
}
use mathlib.Core.Path.{subst}
use snuffleupagus.Wrapper.{StreamKind, kind_name, kind_of}

abbrev pub lower : Bytes → Bytes
lower s = map to_lower s

pub equals_ci-lower : (a b : Bytes) → equals_ci a b ≡ equals (lower a) (lower b)
unfolding equals equals_ci
equals_ci-lower [] [] = refl
equals_ci-lower [] (y ∷ b) = refl
equals_ci-lower (x ∷ a) [] = refl
equals_ci-lower (x ∷ a) (y ∷ b) = rw (equals_ci-lower a b)

pub starts_with_ci-lower : (p s : Bytes) → starts_with_ci p s ≡ starts_with (lower p) (lower s)
unfolding starts_with starts_with_ci
starts_with_ci-lower [] s = refl
starts_with_ci-lower (p ∷ ps) [] = refl
starts_with_ci-lower (p ∷ ps) (c ∷ s) = rw (starts_with_ci-lower ps s)

pub starts_with-rest : (p s : Bytes) → starts_with p s ≡ true → (r : Bytes) × (s ≡ p ++ r)
unfolding starts_with
starts_with-rest [] s h = (s, refl)
starts_with-rest (p ∷ ps) [] h = cc
starts_with-rest (p ∷ ps) (c ∷ s) h = elim (Bool-cases (p == c)) [
  | inl e ↦ let (r, q) = starts_with-rest ps s (rw e at h) in (r, ground arith)
  | inr e ↦ let f : false ≡ true = rw e at h in cc f
]

-- How a path in lower case, behind the scheme, spells a kind of stream.
abbrev pub Spelled : StreamKind → Bytes → Type 0
Spelled StreamKind.temp path = (r : Bytes) × (path ≡ codes "temp" ++ r)
Spelled StreamKind.fd path = (r : Bytes) × (path ≡ codes "fd/" ++ r)
Spelled StreamKind.filter path = (r : Bytes) × (path ≡ codes "filter/" ++ r)
Spelled kind path = path ≡ kind_name kind

-- The branches of the opener, on a path in lower case.
pub kind_lower : Bytes → Option StreamKind
unfolding equals starts_with
kind_lower path =
    if starts_with (codes "temp") path
    then some StreamKind.temp
    else if equals path (codes "memory")
    then some StreamKind.memory
    else if equals path (codes "output")
    then some StreamKind.output
    else if equals path (codes "input")
    then some StreamKind.input
    else if equals path (codes "stdin")
    then some StreamKind.stdin
    else if equals path (codes "stdout")
    then some StreamKind.stdout
    else if equals path (codes "stderr")
    then some StreamKind.stderr
    else if starts_with (codes "fd/") path
    then some StreamKind.fd
    else if starts_with (codes "filter/") path
    then some StreamKind.filter
    else none

pub kind_of-lower : (path : Bytes) → kind_of path ≡ kind_lower (lower path)
unfolding kind_lower kind_of
kind_of-lower path = rw (
  starts_with_ci-lower (codes "temp") path,
  equals_ci-lower path (codes "memory"),
  equals_ci-lower path (codes "output"),
  equals_ci-lower path (codes "input"),
  equals_ci-lower path (codes "stdin"),
  equals_ci-lower path (codes "stdout"),
  equals_ci-lower path (codes "stderr"),
  starts_with_ci-lower (codes "fd/") path,
  starts_with_ci-lower (codes "filter/") path,
)

-- Every spelling of a kind takes its branch.
pub kind_lower_complete :
    (kind : StreamKind) (path : Bytes) → Spelled kind path → kind_lower path ≡ some kind
unfolding kind_lower
kind_lower_complete StreamKind.temp path (r, h) = rw h
kind_lower_complete StreamKind.fd path (r, h) = rw h
kind_lower_complete StreamKind.filter path (r, h) = rw h
kind_lower_complete StreamKind.memory path h = rw h
kind_lower_complete StreamKind.output path h = rw h
kind_lower_complete StreamKind.input path h = rw h
kind_lower_complete StreamKind.stdin path h = rw h
kind_lower_complete StreamKind.stdout path h = rw h
kind_lower_complete StreamKind.stderr path h = rw h

module _ (path : Bytes) (kind : StreamKind) where
  some-kind : (k : StreamKind) → Spelled k path → some k ≡ some kind → Spelled kind path
  some-kind k s h = subst (λ o. elim o [ none ↦ Unit {0} | some j ↦ Spelled j path ]) h s

  -- One branch: what its test says, and the rest of the branches.
  branch :
      (test : Bool) (k : StreamKind) (rest : Option StreamKind)
      → (test ≡ true → Spelled k path)
      → (rest ≡ some kind → Spelled kind path)
      → (if test then some k else rest) ≡ some kind
      → Spelled kind path
  branch true k rest s others h = some-kind k (s refl) h
  branch false k rest s others h = others h

  kind_lower_sound : kind_lower path ≡ some kind → Spelled kind path
  unfolding kind_lower
  kind_lower_sound = branch _ StreamKind.temp _ (starts_with-rest (codes "temp") path) (
      branch _ StreamKind.memory _ (equals_iff path (codes "memory")).0 (
        branch _ StreamKind.output _ (equals_iff path (codes "output")).0 (
          branch _ StreamKind.input _ (equals_iff path (codes "input")).0 (
            branch _ StreamKind.stdin _ (equals_iff path (codes "stdin")).0 (
              branch _ StreamKind.stdout _ (equals_iff path (codes "stdout")).0 (
                branch _ StreamKind.stderr _ (equals_iff path (codes "stderr")).0 (
                  branch _ StreamKind.fd _ (starts_with-rest (codes "fd/") path) (
                    branch _ StreamKind.filter _ (starts_with-rest (codes "filter/") path)
                      (λ h. cc h)))))))))

pub kind_of-Spelled :
    (path : Bytes) (kind : StreamKind) → (kind_of path ≡ some kind) ↔ Spelled kind (lower path)
kind_of-Spelled path kind = (
  λ h. kind_lower_sound (lower path) kind (sym (kind_of-lower path) ∙ h),
  λ h. kind_of-lower path ∙ kind_lower_complete kind (lower path) h,
)
