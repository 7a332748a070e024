-- ===== src/CString/FilePath.antt =====
-- basename and dirname of libgen.h as glibc has them, on the copies that the programs hand them.
pub mod Climbing
use mathlib.Core.List.{reverse}
use nss_i_assignments.Base.{
  ◌≡◌, refl, Bool, true, false, not, ◌&&◌, [], ◌∷◌, ◌==◌, if◌then◌else◌, Bytes, codes,
}

-- Both work on the reversed path, from its end.
strip_slashes : Bytes → Bytes
strip_slashes [] = []
strip_slashes (c ∷ s) = if c == b'/' then strip_slashes s else c ∷ s

upto_slash : Bytes → Bytes
upto_slash [] = []
upto_slash (c ∷ s) = let rest = upto_slash s in if c == b'/' then [] else c ∷ rest

from_slash : Bytes → Bytes
from_slash [] = []
from_slash (c ∷ s) = let rest = from_slash s in if c == b'/' then c ∷ s else rest

-- What remains of a path that is empty, or all slashes, at each stage.
base_of : Bytes → Bytes → Bytes
base_of [] [] = codes "."
base_of (c ∷ p) [] = codes "/"
base_of p (d ∷ r) = reverse (upto_slash (d ∷ r))

unfoldable pub basename : Bytes → Bytes
unfolding strip_slashes upto_slash base_of
basename p = base_of p (strip_slashes (reverse p))

is_slash_first : Bytes → Bool
is_slash_first [] = false
is_slash_first (c ∷ p) = c == b'/'

-- Whether the path starts with two slashes and no third.
unfoldable pub two_slashes : Bytes → Bool
two_slashes (a ∷ b ∷ []) = a == b'/' && b == b'/'
two_slashes (a ∷ b ∷ c ∷ p) = a == b'/' && (b == b'/' && not (c == b'/'))
two_slashes _ = false

-- Where nothing but slashes remains, glibc keeps two of them apart from one.
dir_of : Bytes → Bytes → Bytes
dir_of p [] =
    if two_slashes p then codes "//" else if is_slash_first p then codes "/" else codes "."
dir_of p (c ∷ r) = reverse (c ∷ r)

unfoldable pub dirname : Bytes → Bytes
unfolding strip_slashes from_slash dir_of is_slash_first two_slashes
dirname p = dir_of p (strip_slashes (from_slash (strip_slashes (reverse p))))

basename_runs :
    (basename (codes "files/alice/notes.txt") ≡ codes "notes.txt")
    × (basename (codes "notes.txt") ≡ codes "notes.txt")
    × (basename (codes "a/b//") ≡ codes "b")
    × (basename (codes "//") ≡ codes "/")
    × (basename [] ≡ codes ".")
unfolding basename
basename_runs = (refl, refl, refl, refl, refl)

dirname_runs :
    (dirname (codes "files/alice/notes.txt") ≡ codes "files/alice")
    × (dirname (codes "notes.txt") ≡ codes ".")
    × (dirname (codes "a/b//") ≡ codes "a")
    × (dirname (codes "/a") ≡ codes "/")
    × (dirname [] ≡ codes ".")
    × (dirname (codes "//") ≡ codes "//")
    × (dirname (codes "//a") ≡ codes "//")
    × (dirname (codes "///a") ≡ codes "/")
    × (dirname (codes "//a/b/") ≡ codes "//a")
unfolding dirname
dirname_runs = (refl, refl, refl, refl, refl, refl, refl, refl, refl)
