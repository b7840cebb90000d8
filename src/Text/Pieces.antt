-- ===== src/Text/Pieces.antt =====
-- Texts that are made of pieces, and what stands in them.
use mathlib.Core.Path.{subst}
use mathlib.Core.List.{append-nil, append_assoc as list_append_assoc}
use text.Mathlib.TextLemmas.{append_assoc, nil-append, append-nil as append-nil_text}
use d2vm.Base.{Among, String, ◌<>◌, ◌≡◌, refl, sym, ap, ◌∙◌, inl, inr, List, [], ◌∷◌, ◌++◌}

abbrev pub concat : List String → String
concat [] = ""
concat (s ∷ pieces) = s <> concat pieces

abbrev pub flatten : List (List String) → List String
flatten [] = []
flatten (xs ∷ rest) = xs ++ flatten rest

-- `xs` is the last one.
abbrev pub Last : List String → List (List String) → Type 0
Last xs [] = ⊥
Last xs (ys ∷ []) = xs ≡ ys
Last xs (ys ∷ zs ∷ rest) = Last xs (zs ∷ rest)

-- `text` has `s` in it.
pub record Holds (s text : String) : Type 0 where
  pub front : String
  pub back : String
  pub same : text ≡ front <> (s <> back)

pub concat-append : (xs ys : List String) → concat (xs ++ ys) ≡ concat xs <> concat ys
concat-append [] ys = rw (nil-append (concat ys)) refl
concat-append (x ∷ xs) ys = rw (concat-append xs ys) (sym (append_assoc x (concat xs) (concat ys)))

Among-append_left : (s : String) (xs ys : List String) → Among s xs → Among s (xs ++ ys)
Among-append_left s [] ys h = absurd h
Among-append_left s (x ∷ xs) ys (inl e) = inl e
Among-append_left s (x ∷ xs) ys (inr h) = inr (Among-append_left s xs ys h)

Among-append_right : (s : String) (xs ys : List String) → Among s ys → Among s (xs ++ ys)
Among-append_right s [] ys h = h
Among-append_right s (x ∷ xs) ys h = inr (Among-append_right s xs ys h)

Among-flatten :
    (s : String) (xs : List String) (rest : List (List String))
    → Among xs rest
    → Among s xs
    → Among s (flatten rest)
Among-flatten s xs [] h k = absurd h
Among-flatten s xs (ys ∷ rest) (inl e) k =
    Among-append_left s ys (flatten rest) (subst (Among s) e k)
Among-flatten s xs (ys ∷ rest) (inr h) k =
    Among-append_right s ys (flatten rest) (Among-flatten s xs rest h k)

pub Holds_refl : (s : String) → Holds s s
Holds_refl s = record {
  front = "";
  back = "";
  same = sym (nil-append (s <> "") ∙ append-nil_text s);
}

pub Holds-left : (s t u : String) → Holds s t → Holds s (t <> u)
Holds-left s t u h = record {
  front = h.front;
  back = h.back <> u;
  same =
      ap (λ t. t <> u) h.same
      ∙ (append_assoc h.front (s <> h.back) u ∙ ap (λ t. h.front <> t) (append_assoc s h.back u));
}

pub Holds-right : (s t u : String) → Holds s u → Holds s (t <> u)
Holds-right s t u h = record {
  front = t <> h.front;
  back = h.back;
  same = ap (λ u. t <> u) h.same ∙ sym (append_assoc t h.front (s <> h.back));
}

pub Holds_trans : (s t u : String) → Holds s t → Holds t u → Holds s u
Holds_trans s t u h k =
    subst (Holds s) (sym k.same) (Holds-right s k.front (t <> k.back) (Holds-left s t k.back h))

Holds-concat : (s : String) (pieces : List String) → Among s pieces → Holds s (concat pieces)
Holds-concat s [] h = absurd h
Holds-concat s (x ∷ pieces) (inl e) =
    Holds-left s x (concat pieces) (subst (Holds s) e (Holds_refl s))
Holds-concat s (x ∷ pieces) (inr h) = Holds-right s x (concat pieces) (Holds-concat s pieces h)

-- What is among the pieces of a section stands in the text.
pub Holds-flatten :
    (s : String) (xs : List String) (rest : List (List String))
    → Among xs rest
    → Among s xs
    → Holds s (concat (flatten rest))
Holds-flatten s xs rest h k = Holds-concat s (flatten rest) (Among-flatten s xs rest h k)

flatten-append : (xs ys : List (List String)) → flatten (xs ++ ys) ≡ flatten xs ++ flatten ys
flatten-append [] ys = refl
flatten-append (x ∷ xs) ys =
    ap (λ t. x ++ t) (flatten-append xs ys) ∙ sym (list_append_assoc x (flatten xs) (flatten ys))

pub text-append :
    (xs ys : List (List String))
    → concat (flatten (xs ++ ys)) ≡ concat (flatten xs) <> concat (flatten ys)
text-append xs ys = ap concat (flatten-append xs ys) ∙ concat-append (flatten xs) (flatten ys)

-- The text ends with its last section.
pub concat-Last :
    (xs : List String) (rest : List (List String))
    → Last xs rest
    → (front : String) × (concat (flatten rest) ≡ front <> concat xs)
concat-Last xs [] h = absurd h
concat-Last xs (ys ∷ []) h = ("", rw (nil-append (concat xs)) (ap concat (append-nil ys ∙ sym h)))
concat-Last xs (ys ∷ zs ∷ rest) h =
    let (front, e) = concat-Last xs (zs ∷ rest) h in
    (
      concat ys <> front,
      concat-append ys (flatten (zs ∷ rest))
          ∙ (ap (λ t. concat ys <> t) e ∙ sym (append_assoc (concat ys) front (concat xs))),
    )

-- A whole section stands in the text.
pub Holds-section :
    (xs : List String) (rest : List (List String))
    → Among xs rest
    → Holds (concat xs) (concat (flatten rest))
Holds-section xs [] h = absurd h
Holds-section xs (ys ∷ rest) (inl e) =
    subst (Holds (concat xs)) (sym (concat-append ys (flatten rest))) (
      Holds-left (concat xs) (concat ys) (concat (flatten rest))
        (subst (λ ys. Holds (concat xs) (concat ys)) e (Holds_refl (concat xs))))
Holds-section xs (ys ∷ rest) (inr h) =
    subst (Holds (concat xs)) (sym (concat-append ys (flatten rest)))
      (Holds-right (concat xs) (concat ys) (concat (flatten rest)) (Holds-section xs rest h))
