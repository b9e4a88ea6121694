-- ===== src/Cli/Names.antt =====
-- cmd/gortexa/internal/cli/names.go: the names of a generated service. A text is its code points; what
-- the patterns let through is ASCII, where these are its bytes.
pub mod Snake
use gortexa.Common.{
  ℕ, suc, String, nat_eq, Bool, true, false, Option, none, some, List, [], ◌∷◌, ◌++◌, ◌==◌, ◌&&◌,
  ◌||◌, ◌+◌, ◌-◌, not, if◌then◌else◌, leb,
}
use gortexa.Common.Result.{Result, ok, err, ◌>>=◌}
use gortexa.Common.Text.{codes, codes_equal}

unfoldable pub is_lower : ℕ → Bool
is_lower c = leb 97 c && leb c 122

unfoldable pub is_upper : ℕ → Bool
is_upper c = leb 65 c && leb c 90

unfoldable pub is_digit : ℕ → Bool
is_digit c = leb 48 c && leb c 57

-- Whether every character passes a test.
unfoldable pub every : (ℕ → Bool) → List ℕ → Bool
every p [] = true
every p (c ∷ cs) = p c && every p cs

-- domainRe, ^[a-z][a-z0-9]*$
unfoldable pub matches_domain : List ℕ → Bool
unfolding every is_lower is_digit
matches_domain [] = false
matches_domain (c ∷ cs) = is_lower c && every (λ d. is_lower d || is_digit d) cs

-- versionRe, ^v[0-9]+$
unfoldable pub matches_version : List ℕ → Bool
unfolding every is_digit
matches_version [] = false
matches_version (c ∷ []) = false
matches_version (c ∷ d ∷ cs) = c == 118 && every is_digit (d ∷ cs)

abbrev pub is_alnum : ℕ → Bool
is_alnum c = is_upper c || (is_lower c || is_digit c)

-- entityRe, ^[A-Z][A-Za-z0-9]*$
unfoldable pub matches_entity : List ℕ → Bool
unfolding every
matches_entity [] = false
matches_entity (c ∷ cs) = is_upper c && every is_alnum cs

-- digitThenLowerIndex
unfoldable pub digit_then_lower : ℕ → List ℕ → Option ℕ
digit_then_lower i [] = none
digit_then_lower i (c ∷ []) = none
digit_then_lower i (c ∷ d ∷ cs) =
    let rest = digit_then_lower (suc i) (d ∷ cs) in
    if is_digit c && is_lower d then some i else rest

-- camelToSnake, past the first character
unfoldable pub snake_rest : List ℕ → List ℕ
snake_rest [] = []
snake_rest (c ∷ cs) =
    let rest = snake_rest cs in if is_upper c then 95 ∷ ((c - 65) + 97) ∷ rest else c ∷ rest

unfoldable pub camel_to_snake : List ℕ → List ℕ
unfolding snake_rest
camel_to_snake [] = []
camel_to_snake (c ∷ cs) = (if is_upper c then (c - 65) + 97 else c) ∷ snake_rest cs

-- A key of a set.
unfoldable pub is_one_of : List String → List ℕ → Bool
unfolding codes_equal
is_one_of [] text = false
is_one_of (s ∷ ss) text = codes_equal (codes s) text || is_one_of ss text

-- strings.HasSuffix
unfoldable pub ends_with : List ℕ → List ℕ → Bool
unfolding codes_equal
ends_with suffix [] = codes_equal suffix []
ends_with suffix (c ∷ cs) = codes_equal suffix (c ∷ cs) || ends_with suffix cs

-- What follows the last underscore.
unfoldable pub last_part : Option (List ℕ) → List ℕ → Option (List ℕ)
last_part found [] = found
last_part found (c ∷ cs) = last_part (if c == 95 then some cs else found) cs

abbrev pub go_special_dirs : List String
go_special_dirs = "internal" ∷ "testdata" ∷ "vendor" ∷ []

abbrev pub known_os : List String
known_os =
    "aix" ∷ "android" ∷ "darwin" ∷ "dragonfly" ∷ "freebsd" ∷ "hurd" ∷ "illumos" ∷ "ios" ∷ "js"
    ∷ "linux" ∷ "nacl" ∷ "netbsd" ∷ "openbsd" ∷ "plan9" ∷ "solaris" ∷ "wasip1" ∷ "windows" ∷ "zos"
    ∷ []

abbrev pub known_arch : List String
known_arch =
    "386" ∷ "amd64" ∷ "amd64p32" ∷ "arm" ∷ "armbe" ∷ "arm64" ∷ "arm64be" ∷ "loong64" ∷ "mips"
    ∷ "mipsle" ∷ "mips64" ∷ "mips64le" ∷ "mips64p32" ∷ "mips64p32le" ∷ "ppc" ∷ "ppc64" ∷ "ppc64le"
    ∷ "riscv" ∷ "riscv64" ∷ "s390" ∷ "s390x" ∷ "sparc" ∷ "sparc64" ∷ "wasm" ∷ []

-- tmplData, as far as parseTarget fills it
pub record TmplData : Type 0 where
  pub domain : List ℕ
  pub version : List ℕ
  pub go_pkg : List ℕ
  pub entity : List ℕ
  pub snake : List ℕ
  pub plural : List ℕ
  pub plural_snake : List ℕ

pub data NameError : Type 0 where
  bad_target bad_domain special_dir bad_version bad_entity digit_case test_file platform_file :
      NameError

-- strings.Split(target, "/")
cons_head : ℕ → List (List ℕ) → List (List ℕ)
cons_head c [] = (c ∷ []) ∷ []
cons_head c (p ∷ ps) = (c ∷ p) ∷ ps

unfoldable pub split_slash : List ℕ → List (List ℕ)
unfolding cons_head
split_slash [] = [] ∷ []
split_slash (c ∷ cs) = let rest = split_slash cs in if c == 47 then [] ∷ rest else cons_head c rest

-- strings.ToUpper(domain[:1]) + domain[1:], for a domain
unfoldable pub title : List ℕ → List ℕ
title [] = []
title (c ∷ cs) = (if is_lower c then c - 32 else c) ∷ cs

unfoldable pub default_entity : List ℕ → List ℕ → List ℕ
unfolding title
default_entity domain [] = title domain
default_entity domain (c ∷ cs) = c ∷ cs

abbrev pub is_found : Option ℕ → Bool
is_found none = false
is_found (some i) = true

abbrev pub is_platform : Option (List ℕ) → Bool
is_platform none = false
is_platform (some part) = is_one_of known_os part || is_one_of known_arch part

-- parseTarget, from the entity on
unfoldable pub with_entity : List ℕ → List ℕ → List ℕ → Result NameError TmplData
unfolding matches_entity digit_then_lower camel_to_snake ends_with last_part is_one_of
with_entity domain version entity =
    if not (matches_entity entity)
    then err bad_entity
    else if is_found (digit_then_lower 0 entity)
    then err digit_case
    else if ends_with (codes "_test") (camel_to_snake entity)
    then err test_file
    else if is_platform (last_part none (camel_to_snake entity))
    then err platform_file
    else ok (record {
      domain = domain;
      version = version;
      go_pkg = domain ++ version;
      entity = entity;
      snake = camel_to_snake entity;
      plural = entity ++ codes "s";
      plural_snake = camel_to_snake entity ++ codes "s";
    })

unfoldable pub with_parts : List (List ℕ) → List ℕ → Result NameError TmplData
unfolding matches_domain is_one_of matches_version default_entity with_entity
with_parts [] entity = err bad_target
with_parts (domain ∷ []) entity = err bad_target
with_parts (domain ∷ version ∷ []) entity =
    if not (matches_domain domain)
    then err bad_domain
    else if is_one_of go_special_dirs domain
    then err special_dir
    else if not (matches_version version)
    then err bad_version
    else with_entity domain version (default_entity domain entity)
with_parts (domain ∷ version ∷ more ∷ rest) entity = err bad_target

-- parseTarget
unfoldable pub parse_target : List ℕ → List ℕ → Result NameError TmplData
unfolding split_slash with_parts
parse_target target entity = with_parts (split_slash target) entity
