-- ===== src/Acl/Creating/Texts.antt =====
-- The ACL that createAclFromStat of Assignment1/utils.c writes, line by line.
use nss_i_assignments.Base.{
  ℕ, ◌<◌, ◌≡◌, ◌≢◌, refl, ◌∙◌, Bool, true, not, ◌&&◌, List, [], ◌∷◌, ◌++◌, lt→ltb, Bytes, codes,
  length, length-append, All, All-append, append-nil, append_assoc, if◌then◌else◌, arith,
}
use nss_i_assignments.CString.{str_eq, contains, Free, IsLine, concat_lines, strtok-token}
use nss_i_assignments.Acl.Line.{valid_perm_string, separators, line_has_perm, lacks}
use nss_i_assignments.Acl.Line.Entries.{IsEntry, WellFormed}
use nss_i_assignments.Acl.Checking.{check_lines}
use nss_i_assignments.Acl.Setting.{user_line}
use nss_i_assignments.Acl.Setting.Replacing.{check_lines-step, check_lines-user_line}
use nss_i_assignments.Acl.Setting.Answers.{
  IsAcl, says, says-lines, IsPlain, no_newline, user_line-IsLine, user_line-WellFormed,
}
use nss_i_assignments.Acl.Creating.{owner_perm, group_perm, other_perm, stat_text}

abbrev bit_text : Bool → ℕ → ℕ
bit_text unset c = if unset then b'-' else c

-- The three characters, whatever the bits are.
abbrev perm_text : Bool → Bool → Bool → Bytes
perm_text r w x = bit_text r b'r' ∷ bit_text w b'w' ∷ bit_text x b'x' ∷ []

perm_text_valid : (r w x : Bool) → valid_perm_string (perm_text r w x) ≡ true
perm_text_valid r w x = ground arith

perm_text-Free : (r w x : Bool) → Free separators (perm_text r w x)
unfolding contains
perm_text-Free r w x = (ground arith, (ground arith, (ground arith, tt)))

pub perm_text_r : (r w x : Bool) → contains b'r' (perm_text r w x) ≡ not r
unfolding contains
perm_text_r r w x = ground arith

pub perm_text_w : (r w x : Bool) → contains b'w' (perm_text r w x) ≡ not w
unfolding contains
perm_text_w r w x = ground arith

pub perm_text_x : (r w x : Bool) → contains b'x' (perm_text r w x) ≡ not x
unfolding contains
perm_text_x r w x = ground arith

-- A user's name that can stand in a line behind "user:".
pub record IsName (user : Bytes) : Type 0 where
  pub named : user ≢ []
  pub free : Free separators user
  pub short : length user < 1000

named-IsEntry : (user : Bytes) (r w x : Bool) → IsName user → IsEntry user (perm_text r w x)
named-IsEntry user r w x n = record {
  named = n.named;
  name_free = n.free;
  perm_free = perm_text-Free r w x;
  valid = perm_text_valid r w x;
  fits = omega (arith, n.short, length-append user (codes ":" ++ (perm_text r w x ++ codes "\n")));
}

abbrev default_line : Bytes → Bytes → Bytes
default_line whom perm = codes "default:" ++ (whom ++ (codes ":" ++ (perm ++ codes "\n")))

default_line-lacks :
    (whom perm user : Bytes) (p : ℕ)
    → length (default_line whom perm) < 1024
    → line_has_perm (default_line whom perm) user p ≡ lacks
unfolding line_has_perm contains str_eq
default_line-lacks whom perm user p short = rw (
  lt→ltb _ _ short,
  strtok-token separators (codes "default") b':' (whom ++ (codes ":" ++ (perm ++ codes "\n")))
      (λ e. cc) (refl, (refl, (refl, (refl, (refl, (refl, (refl, tt))))))) refl,
)

default_line-IsLine :
    (whom : Bytes) (r w x : Bool)
    → All IsPlain whom
    → length whom < 1000
    → IsLine 1024 (default_line whom (perm_text r w x))
unfolding contains
default_line-IsLine whom r w x plain short = record {
  body = codes "default:" ++ (whom ++ (codes ":" ++ perm_text r w x));
  ends = simp append_assoc;
  plain =
      All-append IsPlain (codes "default:") (whom ++ (codes ":" ++ perm_text r w x))
        (refl, (refl, (refl, (refl, (refl, (refl, (refl, (refl, tt))))))))
        (All-append IsPlain whom (codes ":" ++ perm_text r w x) plain
          (refl, no_newline (perm_text r w x) (perm_text-Free r w x)));
  fits = omega (arith, length-append whom (codes ":" ++ (perm_text r w x ++ codes "\n")));
}

module _ (owner : Bytes) (mode : ℕ) (n : IsName owner) where
  stat_lines : List Bytes
  stat_lines =
      default_line (codes "user") (owner_perm mode)
      ∷ default_line (codes "group") (group_perm mode)
      ∷ default_line (codes "other") (other_perm mode)
      ∷ user_line owner (owner_perm mode)
      ∷ []

  owner_entry : IsEntry owner (owner_perm mode)
  owner_entry = named-IsEntry owner _ _ _ n

  stat_text-lines : stat_text owner mode ≡ concat_lines stat_lines
  unfolding stat_lines
  stat_text-lines = rw (append-nil (user_line owner (owner_perm mode)))

  default-WellFormed :
      (whom perm : Bytes)
      → length (default_line whom perm) < 1024
      → WellFormed (default_line whom perm)
  default-WellFormed whom perm short user p e =
      let quiet : line_has_perm (default_line whom perm) user p ≡ lacks =
        default_line-lacks whom perm user p short in
      cc

  pub stat_text-IsAcl : IsAcl (stat_text owner mode)
  unfolding stat_lines
  stat_text-IsAcl = record {
    lines = stat_lines;
    together = stat_text-lines;
    terminated = (
      default_line-IsLine (codes "user") _ _ _ (refl, (refl, (refl, (refl, tt)))) (omega arith),
      (
        default_line-IsLine (codes "group") _ _ _ (refl, (refl, (refl, (refl, (refl, tt)))))
            (omega arith),
        (
          default_line-IsLine (codes "other") _ _ _ (refl, (refl, (refl, (refl, (refl, tt)))))
              (omega arith),
          (user_line-IsLine owner (owner_perm mode) owner_entry, tt),
        ),
      ),
    );
    well_formed = (
      default-WellFormed (codes "user") (owner_perm mode) (omega arith),
      (
        default-WellFormed (codes "group") (group_perm mode) (omega arith),
        (
          default-WellFormed (codes "other") (other_perm mode) (omega arith),
          (user_line-WellFormed owner (owner_perm mode) owner_entry, tt),
        ),
      ),
    );
  }

  pub stat_text-says :
      (user : Bytes) (p : ℕ)
      → says user p (stat_text owner mode) ≡ (str_eq owner user && contains p (owner_perm mode))
  unfolding stat_lines stat_text-IsAcl check_lines
  stat_text-says user p =
      says-lines user p (stat_text owner mode) stat_text-IsAcl
      ∙ check_lines-step user (default_line (codes "user") (owner_perm mode)) p
          (default_line (codes "group") (group_perm mode)
            ∷ default_line (codes "other") (other_perm mode)
            ∷ user_line owner (owner_perm mode)
            ∷ [])
          (default_line-lacks (codes "user") (owner_perm mode) user p (omega arith))
      ∙ check_lines-step user (default_line (codes "group") (group_perm mode)) p
          (default_line (codes "other") (other_perm mode) ∷ user_line owner (owner_perm mode) ∷ [])
          (default_line-lacks (codes "group") (group_perm mode) user p (omega arith))
      ∙ check_lines-step user (default_line (codes "other") (other_perm mode)) p
          (user_line owner (owner_perm mode) ∷ [])
          (default_line-lacks (codes "other") (other_perm mode) user p (omega arith))
      ∙ check_lines-user_line owner (owner_perm mode) user p [] owner_entry
      ∙ ground arith
