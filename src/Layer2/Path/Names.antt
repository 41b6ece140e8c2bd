-- ===== src/Layer2/Path/Names.antt =====
-- The components of a path: strtok, and the last one by strrchr.
use mathlib.Core.List.{reverse_aux, append-nil}
use filesystem.Layer2.Path.{FilePath, tokens_from, tokens, last_name}
use filesystem.Prelude.{ℕ, ◌≡◌, refl, ◌∙◌, ◌≢◌, List, [], ◌∷◌, ◌++◌, arith}

-- A component has a character, and no '/'.
abbrev pub AllPlain : List ℕ → Type 0
AllPlain [] = Unit {0}
AllPlain (c ∷ cs) = (c ≢ b'/') × AllPlain cs

abbrev pub IsName : List ℕ → Type 0
IsName [] = ⊥
IsName (c ∷ cs) = AllPlain (c ∷ cs)

abbrev pub AllNames : List (List ℕ) → Type 0
AllNames [] = Unit {0}
AllNames (w ∷ ws) = IsName w × AllNames ws

-- The path of some components.
abbrev pub path_of : List (List ℕ) → FilePath
path_of [] = []
path_of (w ∷ ws) = b'/' ∷ (w ++ path_of ws)

tokens_from-word :
    (a : ℕ) (acc w : List ℕ) (ws : List (List ℕ))
    → AllPlain w
    → tokens_from (a ∷ acc) (w ++ path_of ws) ≡ reverse_aux (a ∷ acc) w ∷ tokens (path_of ws)
unfolding tokens_from tokens
tokens_from-word a acc [] [] h = refl
tokens_from-word a acc [] (x ∷ ws) h = refl
tokens_from-word a acc (c ∷ w) ws h = ground (arith, tokens_from-word c (a ∷ acc) w ws h.1)

tokens-path_of : (ws : List (List ℕ)) → AllNames ws → tokens (path_of ws) ≡ ws
unfolding tokens_from tokens
tokens-path_of [] h = refl
tokens-path_of ([] ∷ ws) h = absurd h.0
tokens-path_of ((a ∷ w) ∷ ws) h =
    ground (arith, h.0, tokens_from-word a [] w ws h.0.1, tokens-path_of ws h.1)

last_name-word :
    (w : List ℕ) (rest : FilePath) (name : List ℕ)
    → AllPlain w
    → last_name (w ++ rest) name ≡ last_name rest name
unfolding last_name
last_name-word [] rest name h = refl
last_name-word (c ∷ w) rest name h = ground (arith, h, last_name-word w rest name h.1)

IsName-AllPlain : (w : List ℕ) → IsName w → AllPlain w
IsName-AllPlain [] h = absurd h
IsName-AllPlain (c ∷ w) h = h

last_name-path_of :
    (ws : List (List ℕ)) (w name : List ℕ)
    → AllNames ws
    → IsName w
    → last_name (path_of (ws ++ w ∷ [])) name ≡ w
unfolding last_name
last_name-path_of [] w name h hw =
    last_name-word w [] (w ++ []) (IsName-AllPlain w hw) ∙ append-nil w
last_name-path_of (x ∷ ws) w name h hw =
    last_name-word x (path_of (ws ++ w ∷ [])) (x ++ path_of (ws ++ w ∷ [])) (IsName-AllPlain x h.0)
    ∙ last_name-path_of ws w (x ++ path_of (ws ++ w ∷ [])) h.1 hw

AllNames-append :
    (ws : List (List ℕ)) (w : List ℕ) → AllNames ws → IsName w → AllNames (ws ++ w ∷ [])
AllNames-append [] w h hw = (hw, tt)
AllNames-append (x ∷ ws) w h hw = (h.0, AllNames-append ws w h.1 hw)

-- namei looks up the components of a path in their order, and the name that mkdir_fs and mknod_fs give
-- a new entry is the last of them; each component has a character and no '/'.
pub tokens-last_name :
    (ws : List (List ℕ)) (w : List ℕ)
    → AllNames ws
    → IsName w
    → (tokens (path_of (ws ++ w ∷ [])) ≡ ws ++ w ∷ []) × (last_name (path_of (ws ++ w ∷ [])) [] ≡ w)
tokens-last_name ws w h hw =
    (tokens-path_of (ws ++ w ∷ []) (AllNames-append ws w h hw), last_name-path_of ws w [] h hw)
