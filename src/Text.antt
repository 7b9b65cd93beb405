-- ===== src/Text.antt =====
-- Python's `str` methods, and `shlex.join`, which the Waypoint backend uses.
use Prim.Native.Char.{Char, code}
use state_fork.Prelude.{
  zero, suc, ℕ, ◌+◌, ◌-◌, ◌*◌, String, Bool, true, false, Option, none, some, List, [], ◌∷◌, ◌&&◌,
  ◌||◌, not, leb, if◌then◌else◌, ◌<>◌, ℤ, pos, negsuc, nonempty,
}

abbrev pub at_code : Char → ℕ → Bool
at_code c n = leb (code c) n && leb n (code c)

abbrev between : ℕ → ℕ → Char → Bool
between low high c = leb low (code c) && leb (code c) high

-- c.isspace()
unfoldable pub is_space : Char → Bool
is_space c =
    between 9 13 c
    || between 28 32 c
    || at_code c 133
    || at_code c 160
    || at_code c 5760
    || between 8192 8202 c
    || between 8232 8233 c
    || at_code c 8239
    || at_code c 8287
    || at_code c 12288

-- A line boundary of `splitlines`. A carriage return and a line feed together leave an empty line
-- between them here, which the callers drop.
unfoldable pub is_break : Char → Bool
is_break c = between 10 13 c || between 28 30 c || at_code c 133 || between 8232 8233 c

-- The pieces of a text between the characters that a test picks, the piece begun so far first.
unfoldable pub pieces : (Char → Bool) → String → String → List String
pieces cut begun String.[] = begun ∷ []
pieces cut begun (String.◌∷◌ c s) =
    let fresh = pieces cut "" s in
    let longer = pieces cut (begun <> String.◌∷◌ c String.[]) s in
    if cut c then begun ∷ fresh else longer

unfoldable pub only : (String → Bool) → List String → List String
only keep [] = []
only keep (s ∷ ss) = let rest = only keep ss in if keep s then s ∷ rest else rest

-- s.split()
unfoldable pub split : String → List String
split s = only nonempty (pieces is_space "" s)

-- s.lstrip()
unfoldable pub lstrip : String → String
lstrip String.[] = String.[]
lstrip (String.◌∷◌ c s) = let rest = lstrip s in if is_space c then rest else String.◌∷◌ c s

-- s.rstrip()
unfoldable pub rstrip : String → String
rstrip String.[] = String.[]
rstrip (String.◌∷◌ c s) =
    let rest = rstrip s in
    if is_space c && not (nonempty rest) then String.[] else String.◌∷◌ c rest

-- s.strip()
unfoldable pub strip : String → String
strip s = lstrip (rstrip s)

-- s.splitlines(), without the lines that are blank
unfoldable pub written_lines : String → List String
written_lines s = only (λ line. nonempty (strip line)) (pieces is_break "" s)

-- s.partition(…) at a character: the text before its first occurrence and the text after it, or
-- nothing where it does not occur.
unfoldable pub partition : ℕ → String → Option (String × String)
partition n String.[] = none
partition n (String.◌∷◌ c s) =
    let rest = partition n s in
    if at_code c n
    then some ("", s)
    else elim rest [ none ↦ none | some (before, after) ↦ some (String.◌∷◌ c before, after) ]

is_digit : Char → Bool
is_digit = between b'0' b'9'

-- The digits of a literal, with single underscores between them. `begun` tells whether a digit
-- stands directly before.
unfoldable pub digits : Bool → ℕ → String → Option ℕ
unfolding is_digit
digits begun n String.[] = if begun then some n else none
digits begun n (String.◌∷◌ c s) =
    let next = digits true (n * 10 + (code c - b'0')) s in
    let skipped = digits false n s in
    if is_digit c then next else if at_code c b'_' && begun then skipped else none

unfoldable pub negated : Option ℕ → Option ℤ
negated none = none
negated (some zero) = some (pos 0)
negated (some (suc n)) = some (negsuc n)

unfoldable pub positive : Option ℕ → Option ℤ
positive none = none
positive (some n) = some (pos n)

-- int(s) for a text in ASCII; `none` is a `ValueError`.
unfoldable pub parse_int : String → Option ℤ
parse_int s = signed (strip s)
  where
    signed : String → Option ℤ
    signed String.[] = none
    signed (String.◌∷◌ c s) =
        if at_code c b'-'
        then negated (digits false 0 s)
        else if at_code c b'+'
        then positive (digits false 0 s)
        else positive (digits false 0 (String.◌∷◌ c s))

-- A character that a shell reads as itself.
unfoldable pub is_safe : Char → Bool
is_safe c =
    between b'a' b'z' c
    || between b'A' b'Z' c
    || between b'0' b'9' c
    || between 43 47 c
    || at_code c b'_'
    || at_code c b'@'
    || at_code c b'%'
    || at_code c b':'
    || at_code c b'='

unfoldable pub all_safe : String → Bool
all_safe String.[] = true
all_safe (String.◌∷◌ c s) = is_safe c && all_safe s

unfoldable pub escape : String → String
escape String.[] = String.[]
escape (String.◌∷◌ c s) =
    let rest = escape s in if at_code c 39 then "'\"'\"'" <> rest else String.◌∷◌ c rest

-- shlex.quote(s)
unfoldable pub quote : String → String
quote s = if nonempty s && all_safe s then s else "'" <> escape s <> "'"

-- shlex.join(words)
unfoldable pub join : List String → String
join [] = ""
join (w ∷ []) = quote w
join (w ∷ v ∷ ws) = quote w <> " " <> join (v ∷ ws)

-- s.startswith(prefix)
unfoldable pub starts_with : String → String → Bool
starts_with String.[] s = true
starts_with (String.◌∷◌ c prefix) String.[] = false
starts_with (String.◌∷◌ c prefix) (String.◌∷◌ d s) = at_code c (code d) && starts_with prefix s

-- s.partition(" ")[2]
unfoldable pub after_space : String → String
after_space s = elim (partition b' ' s) [ none ↦ "" | some (before, after) ↦ after ]

-- s.partition(" ")[0]
unfoldable pub before_space : String → String
before_space s = elim (partition b' ' s) [ none ↦ s | some (before, after) ↦ before ]

-- s.endswith(…) at a character
unfoldable pub ends_in : ℕ → String → Bool
ends_in n String.[] = false
ends_in n (String.◌∷◌ c s) = if nonempty s then ends_in n s else at_code c n

-- os.path.join(directory, name) of POSIX
unfoldable pub path_join : String → String → String
unfolding starts_with ends_in
path_join directory name =
    if starts_with "/" name || not (nonempty directory)
    then name
    else if ends_in b'/' directory
    then directory <> name
    else directory <> "/" <> name
