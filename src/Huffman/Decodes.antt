-- ===== src/Huffman/Decodes.antt =====
-- A decoder that walks the tree, and what it makes of the codes.
use system_programming_and_d.Base.{
  ℕ, ◌≡◌, ◌≢◌, refl, sym, ap, ◌∙◌, inl, inr, Bool, true, false, Bool-cases, List, [], ◌∷◌, ◌++◌,
  none, some, get_or, All, ◌==◌, if◌then◌else◌,
}
use system_programming_and_d.Huffman.{Tree, nil, node, FreqNode}
use system_programming_and_d.Huffman.Codes.{follow, blank}
use system_programming_and_d.Huffman.Messages.{code_of, codes_of}

abbrev pub child : Tree → ℕ → Tree
child nil b = nil
child (node k f l r) b = if b == 1 then l else r

-- At a leaf its key is put out, and the walk goes back to the root.
abbrev put_out : Tree → List ℕ → List ℕ
put_out (node k f nil nil) rest = k ∷ rest
put_out t rest = rest

abbrev next_start : Tree → Tree → Tree
next_start root (node k f nil nil) = root
next_start root t = t

-- The keys on the walk from `t` on, with a bit for each step.
unfoldable pub decode : Tree → Tree → List ℕ → List ℕ
decode root t [] = []
decode root t (b ∷ bits) = put_out (child t b) (decode root (next_start root (child t b)) bits)

not_some : {k : ℕ} → none ≢ some k
not_some e = cc

-- The claim for the rest of the path, where a step is left.
abbrev Continues : Tree → Tree → ℕ → List ℕ → List ℕ → Type 0
Continues root c k [] more = Unit {0}
Continues root c k (b ∷ rest) more =
    follow c (b ∷ rest) ≡ some k → decode root c ((b ∷ rest) ++ more) ≡ k ∷ decode root root more

-- The path to a leaf, after the first step: its key is put out.
decode-step :
    (root c : Tree) (k : ℕ) (rest more : List ℕ)
    → Continues root c k rest more
    → follow c rest ≡ some k
    → put_out c (decode root (next_start root c) (rest ++ more)) ≡ k ∷ decode root root more
unfolding follow decode
decode-step root nil k rest more again h = cc
decode-step root (node x f nil nil) k [] more again h = cc
decode-step root (node x f nil nil) k (b ∷ rest) more again h = (elim (Bool-cases (b == 1)) [
  | inl e ↦ absurd (not_some (rw e at h))
  | inr e ↦ absurd (not_some (rw e at h))
])
decode-step root (node x f (node a b c d) r) k [] more again h = cc
decode-step root (node x f nil (node a b c d)) k [] more again h = cc
decode-step root (node x f (node a b c d) r) k (y ∷ rest) more again h = again h
decode-step root (node x f nil (node a b c d)) k (y ∷ rest) more again h = again h

follow-child :
    (t : Tree) (k b : ℕ) (rest : List ℕ)
    → follow t (b ∷ rest) ≡ some k
    → follow (child t b) rest ≡ some k
unfolding follow
follow-child nil k b rest h = absurd (not_some h)
follow-child (node x f nil nil) k b rest h = pick (b == 1) h
  where
    pick :
        (t : Bool)
        → (if t then none else none) ≡ some k
        → follow (if t then nil else nil) rest ≡ some k
    pick true e = e
    pick false e = e
follow-child (node x f (node a c y z) r) k b rest h = pick (b == 1) h
  where
    pick :
        (t : Bool)
        → (if t then follow (node a c y z) rest else follow r rest) ≡ some k
        → follow (if t then node a c y z else r) rest ≡ some k
    pick true e = e
    pick false e = e
follow-child (node x f nil (node a c y z)) k b rest h = pick (b == 1) h
  where
    pick :
        (t : Bool)
        → (if t then follow nil rest else follow (node a c y z) rest) ≡ some k
        → follow (if t then nil else node a c y z) rest ≡ some k
    pick true e = e
    pick false e = e

-- Walking the path to a leaf puts out its key, and the walk goes on from the root.
pub decode-follow :
    (root t : Tree) (k b : ℕ) (rest more : List ℕ)
    → follow t (b ∷ rest) ≡ some k
    → decode root t ((b ∷ rest) ++ more) ≡ k ∷ decode root root more
unfolding decode
decode-follow root t k b [] more h =
    decode-step root (child t b) k [] more tt (follow-child t k b [] h)
decode-follow root t k b (b' ∷ rest) more h =
    decode-step root (child t b) k (b' ∷ rest) more (decode-follow root (child t b) k b' rest more)
      (follow-child t k b (b' ∷ rest) h)

-- Codes that are paths in a tree with more than one leaf decode to the bytes.
pub decode-codes_of :
    (root : Tree) (nodes : List FreqNode) (buffer : List ℕ)
    → follow root [] ≡ none
    → All (λ b. follow root (code_of (get_or nodes b blank)) ≡ some b) buffer
    → decode root root (codes_of nodes buffer) ≡ buffer
unfolding codes_of decode
decode-codes_of root nodes [] inner paths = refl
decode-codes_of root nodes (b ∷ buffer) inner paths =
    first (code_of (get_or nodes b blank)) paths.0
    ∙ ap (λ (l : List ℕ). b ∷ l) (decode-codes_of root nodes buffer inner paths.1)
  where
    first :
        (code : List ℕ)
        → follow root code ≡ some b
        → decode root root (code ++ codes_of nodes buffer)
          ≡ b ∷ decode root root (codes_of nodes buffer)
    first [] h = absurd (not_some (sym inner ∙ h))
    first (x ∷ code) h = decode-follow root root b x code (codes_of nodes buffer) h
