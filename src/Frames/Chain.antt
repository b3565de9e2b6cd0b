-- ===== src/Frames/Chain.antt =====
-- Which stacks a chain `a>b>c` of functions matches.
use mathlib.Core.Option.{some-injective}
use snuffleupagus.Base.{
  ◌↔◌, ◌≡◌, refl, sym, ap, ◌∙◌, true, false, List, [], ◌∷◌, ◌++◌, some, Bytes, equals, equals_iff,
  equals_refl, Bool-cases, Option-cases, inl, inr, arith, All, is_set,
}
use snuffleupagus.Frames.{Frame, frame_path, is_functions_list_matching}

-- The functions of a list occur on the stack in this order, perhaps with others between them.
pub data Occur : List Bytes → List Frame → Type 0 where
  done : {frames : List Frame} → Occur [] frames
  here :
      {name : Bytes} {list : List Bytes} {f : Frame} {frames : List Frame}
      → frame_path f.func ≡ some name
      → Occur list frames
      → Occur (name ∷ list) (f ∷ frames)
  skip :
      {list : List Bytes} {f : Frame} {frames : List Frame}
      → Occur list frames
      → Occur list (f ∷ frames)

tail :
    (name : Bytes) (list : List Bytes) (frames : List Frame)
    → Occur (name ∷ list) frames
    → Occur list frames
tail name list [] o = elim o [ ]
tail name list (f ∷ frames) (Occur.here p o) = Occur.skip o
tail name list (f ∷ frames) (Occur.skip o) = Occur.skip (tail name list frames o)

-- The first function that fits may be taken.
taken :
    (name : Bytes) (list : List Bytes) (f : Frame) (frames : List Frame)
    → Occur (name ∷ list) (f ∷ frames)
    → Occur list frames
taken name list f frames (Occur.here p o) = o
taken name list f frames (Occur.skip o) = tail name list frames o

passed_over :
    (name path : Bytes) (list : List Bytes) (f : Frame) (frames : List Frame)
    → frame_path f.func ≡ some path
    → equals name path ≡ false
    → Occur (name ∷ list) (f ∷ frames)
    → Occur (name ∷ list) frames
passed_over name path list f frames p q (Occur.here r o) =
    grind (arith, equals_refl name, some-injective path name (sym p ∙ r))
passed_over name path list f frames p q (Occur.skip o) = o

abbrev pub AreNamed : List Frame → Type 0
AreNamed frames = All (λ f. is_set (frame_path f.func) ≡ true) frames

-- The outermost frame completes no list.
outermost :
    (last : Frame) (list : List Bytes)
    → is_functions_list_matching (last ∷ []) list ≡ true
    → Occur list []
unfolding is_functions_list_matching
outermost last [] e = Occur.done
outermost last (name ∷ list) e = elim (Option-cases (frame_path last.func)) [
  | inl n ↦ ground arith
  | inr (path, p) ↦ ground arith
]

accepted-Occur :
    (frames : List Frame) (last : Frame) (list : List Bytes)
    → is_functions_list_matching (frames ++ last ∷ []) list ≡ true
    → Occur list frames
unfolding is_functions_list_matching
accepted-Occur [] last list e = outermost last list e
accepted-Occur (f ∷ frames) last [] e = Occur.done
accepted-Occur (f ∷ frames) last (name ∷ list) e = elim (Option-cases (frame_path f.func)) [
  | inl n ↦ ground arith
  | inr (path, p) ↦ elim (Bool-cases (equals name path)) [
    | inl q ↦
        Occur.here (p ∙ ap some (sym ((equals_iff name path).0 q)))
          (accepted-Occur frames last list (ground arith))
    | inr q ↦ Occur.skip (accepted-Occur frames last (name ∷ list) (ground arith))
  ]
]

Occur-accepted :
    (frames : List Frame) (last : Frame) (list : List Bytes)
    → AreNamed frames
    → Occur list frames
    → is_functions_list_matching (frames ++ last ∷ []) list ≡ true
unfolding is_functions_list_matching
Occur-accepted [] last [] h o = refl
Occur-accepted [] last (name ∷ list) h o = elim o [ ]
Occur-accepted (f ∷ frames) last [] h o = refl
Occur-accepted (f ∷ frames) last (name ∷ list) (n, h) o = elim (Option-cases (frame_path f.func)) [
  | inl e ↦ ground arith
  | inr (path, p) ↦ elim (Bool-cases (equals name path)) [
    | inl q ↦ ground (arith, Occur-accepted frames last list h (taken name list f frames o))
    | inr q ↦ ground (
      arith,
      Occur-accepted frames last (name ∷ list) h (passed_over name path list f frames p q o),
    )
  ]
]

-- On a stack where all functions but perhaps the outermost have names, a chain of functions is
-- accepted exactly if they occur in this order on the stack without its outermost frame, which is
-- `last`.
pub is_functions_list_matching-Occur :
    (frames : List Frame) (last : Frame) (list : List Bytes)
    → AreNamed frames
    → (is_functions_list_matching (frames ++ last ∷ []) list ≡ true) ↔ Occur list frames
is_functions_list_matching-Occur frames last list h =
    (accepted-Occur frames last list, Occur-accepted frames last list h)
