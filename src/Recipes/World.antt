-- ===== src/Recipes/World.antt =====
-- The operations that use_on_realworld_projects/realworld_projects.py performs on the machine it
-- runs on, and `shlex.split`.
use psychicstd.Base.{ℕ, zero, suc, Bool, ◌||◌, not, Option, none, some, inl, inr, ◌⊎◌}
use psychicstd.Base.{
  List, [], ◌∷◌, ◌++◌, Text, codes, Dict, lookup, insert, keep_keys, text_eq, nat_eq, ◌==◌,
  if◌then◌else◌, starts_with, is_space, drop, length, any, keys,
}

-- What a file holds: text or bytes, or the compiler wrapper that is written for three lists of
-- arguments: the compiler, its flags and the flags for linking.
pub data Content : Type 0 where
  text : Text → Content
  wrapper : List Text → List Text → List Text → Content

abbrev pub Files : Type 0
Files = Dict Text Content

-- The files by their paths, and the commands that ran with their exit codes, the first one first.
pub record World : Type 0 where
  pub files : Files
  pub log : List (List Text × ℕ)

-- The code that is called outside the program. `spawn command cwd env files` is the exit code, the
-- milliseconds and the files after it; `elapsed jobs times` the time that commands take on a pool. A `stuck` file cannot be removed.
pub record Host : Type 0 where
  pub environ : Dict Text Text
  pub sysname : Text
  pub rw_dir : Text
  pub stuck : Text → Bool
  pub retrieve : Text → Option Text
  pub sha256 : Text → Text
  pub unpack : Text → Option (Dict Text Text)
  pub temp_name : Text → Files → Text
  pub spawn : List Text → Text → Dict Text Text → Files → ℕ × (ℕ × Files)
  pub elapsed : ℕ → List ℕ → ℕ

-- A piece of a recipe: it returns a value or raises an exception with a message.
abbrev pub Action {ℓ} : Type ℓ → Type ℓ
Action A = Host → World → (Text ⊎ A) × World

infixl 5 ◌>>=◌ ◌>>◌
unfoldable pub ◌>>=◌ {ℓ κ} : {A : Type ℓ} {B : Type κ} → Action A → (A → Action B) → Action B
◌>>=◌ m f h w = let (result, w') = m h w in elim result [ inl e ↦ (inl e, w') | inr a ↦ f a h w' ]

abbrev pub ◌>>◌ {ℓ κ} : {A : Type ℓ} {B : Type κ} → Action A → Action B → Action B
m >> k = m >>= λ _. k

unfoldable pub done {ℓ} : {A : Type ℓ} → A → Action A
done a h w = (inr a, w)

unfoldable pub raise {ℓ} : {A : Type ℓ} → Text → Action A
raise e h w = (inl e, w)

-- The type of `None`.
abbrev pub NoneType : Type 0
NoneType = Unit

-- What the machine is asked.
unfoldable pub ask {ℓ} : {A : Type ℓ} → (Host → A) → Action A
ask f h w = (inr (f h), w)

unfoldable pub read_files : Action Files
read_files h w = (inr w.files, w)

unfoldable pub write_files : Files → Action NoneType
write_files files h w = (inr tt, record w { files = files })

infixl 20 ◌/◌
-- `dir / name`
abbrev pub ◌/◌ : Text → Text → Text
dir / name = dir ++ (codes "/" ++ name)

-- `path.read_text()`; a wrapper is never read.
unfoldable pub read_text : Text → Action Text
unfolding text_eq
read_text path = do
  files ← read_files
  elim (lookup path files) [
    | some (text s) ↦ done s
    | some (wrapper c f l) ↦ raise path
    | none ↦ raise path
  ]

unfoldable pub write_content : Text → Content → Action NoneType
unfolding text_eq
write_content path content = do files ← read_files; write_files (insert path content files)

abbrev pub write_text : Text → Text → Action NoneType
write_text path s = write_content path (text s)

-- Whether `path` lies under the directory `dir`.
unfoldable pub is_under : Text → Text → Bool
unfolding starts_with
is_under dir path = starts_with path (dir ++ codes "/")

-- What `shutil.rmtree(dir)` removes before it fails or returns.
unfoldable pub remove_tree : Host → Text → World → World
unfolding is_under
remove_tree h dir w = record w {
  files = keep_keys (λ path. not (is_under dir path) || h.stuck path) w.files;
}

-- Whether there is a file in the directory: behind `shutil.rmtree` it is why that failed.
unfoldable pub is_occupied : Text → World → Bool
unfolding is_under
is_occupied dir w = any (is_under dir) (keys w.files)

-- The state of `shlex`: between quotes or not, or behind a backslash.
pub data Quote : Type 0 where
  plain : Quote
  single : Quote
  double : Quote
  escape : Quote
  escape_double : Quote

single_quote : ℕ
single_quote = 39

double_quote : ℕ
double_quote = 34

backslash : ℕ
backslash = 92

is_blank : ℕ → Bool
unfolding nat_eq
is_blank c = c == 32 || (c == 9 || (c == 10 || c == 13))

-- What a character adds to the word that is being read, and the next state. `none` for the word is
-- that no word has begun, and for the result that the word ends.
step : Quote → ℕ → Quote × Option Text
unfolding nat_eq is_blank single_quote double_quote backslash
step plain c =
    if c == single_quote
    then (single, some [])
    else if c == double_quote
    then (double, some [])
    else if c == backslash
    then (escape, some [])
    else if is_blank c
    then (plain, none)
    else (plain, some (c ∷ []))
step single c = if c == single_quote then (plain, some []) else (single, some (c ∷ []))
step double c =
    if c == double_quote
    then (plain, some [])
    else if c == backslash
    then (escape_double, some [])
    else (double, some (c ∷ []))
step escape c = (plain, some (c ∷ []))
step escape_double c =
    if c == double_quote || c == backslash
    then (double, some (c ∷ []))
    else (double, some (backslash ∷ c ∷ []))

finish : Option Text → List Text → List Text
finish none words = words
finish (some word) words = word ∷ words

grow : Option Text → Text → Option Text
grow none more = some more
grow (some word) more = some (word ++ more)

split_from : Quote → Option Text → Text → Option (List Text)
unfolding step finish grow
split_from plain word [] = some (finish word [])
split_from _ word [] = none
split_from q word (c ∷ s) =
    let (r, more) = step q c in
    elim more [
      | some part ↦ split_from r (grow word part) s
      | none ↦ elim (split_from r none s) [ none ↦ none | some words ↦ some (finish word words) ]
    ]

-- `shlex.split`; `none` is its `ValueError`.
unfoldable pub shell_words : Text → Option (List Text)
unfolding split_from
shell_words s = split_from plain none s

-- `s.split()`
split_spaces : Option Text → Text → List Text
unfolding finish grow is_space
split_spaces word [] = finish word []
split_spaces word (c ∷ s) =
    if is_space c then finish word (split_spaces none s) else split_spaces (grow word (c ∷ [])) s

unfoldable pub words : Text → List Text
unfolding split_spaces
words s = split_spaces none s

-- `s.replace(old, new)`, where `skip` counts the characters of the occurrence being replaced.
replace_from : Text → Text → ℕ → Text → Text
unfolding starts_with
replace_from old new skip [] = []
replace_from old new (suc skip) (c ∷ s) = replace_from old new skip s
replace_from old new zero (c ∷ s) =
    if starts_with (c ∷ s) old
    then new ++ replace_from old new (length (drop 1 old)) s
    else c ∷ replace_from old new zero s

unfoldable pub replace : Text → Text → Text → Text
unfolding replace_from
replace old new s = replace_from old new zero s

-- `part in s`
unfoldable pub occurs : Text → Text → Bool
unfolding starts_with
occurs part [] = starts_with [] part
occurs part (c ∷ s) = starts_with (c ∷ s) part || occurs part s
