-- ===== src/Vm/Seeding.antt =====
-- The cloud-init seed.
use dvm.Base.{
  All-append, ◌==◌, Bytes, codes, is_empty, trim_space, Bool, true, false, not, List, [], ◌∷◌, ◌++◌,
  append_assoc, append-nil, if◌then◌else◌, Result, ok, err,
}
use dvm.Base.{
  split, Lacks, split-Lacks, All, ◌≡◌, ◌≢◌, refl, sym, ap, ◌∙◌, Bool-cases, inl, inr, arith,
}
use dvm.Cache.Disk.{Disk, write_file, remove}
use dvm.Vm.Seed.{
  SeedParams, password_part, key_part, user_data, seed_files, with_defaults, write_files,
  image_written, SeedIo, SeedError, create_image, format_image, write_seed,
}

-- The lines of the user data, and the empty one that stands for the end
abbrev pub password_lines : SeedParams → List Bytes
password_lines p =
    if is_empty p.password
    then []
    else codes "ssh_pwauth: true"
      ∷ codes "chpasswd:"
      ∷ codes "  expire: false"
      ∷ codes "  users:"
      ∷ (codes "    - name: " ++ p.username)
      ∷ (codes "      password: " ++ p.password)
      ∷ codes "      type: text"
      ∷ []

abbrev pub key_lines : SeedParams → List Bytes
key_lines p =
    if is_empty p.ssh_key
    then []
    else codes "ssh_authorized_keys:" ∷ (codes "  - " ++ trim_space p.ssh_key) ∷ []

abbrev lines_text : List Bytes → Bytes
lines_text [] = []
lines_text (l ∷ ls) = l ++ (b'\n' ∷ lines_text ls)

-- A text of whole lines is split into them and the empty text behind the last newline.
split-lines_text :
    (ls : List Bytes) (rest : Bytes)
    → All (Lacks b'\n') ls
    → split (lines_text ls ++ rest) b'\n' ≡ ls ++ split rest b'\n'
split-lines_text [] rest h = refl
split-lines_text (l ∷ ls) rest (hl, hs) =
    ap (λ s. split s b'\n') (append_assoc l (b'\n' ∷ lines_text ls) rest)
    ∙ (split-Lacks l (lines_text ls ++ rest) b'\n' hl
        ∙ ap (λ x. l ∷ x) (split-lines_text ls rest hs))

lines_text-append : (a b : List Bytes) → lines_text (a ++ b) ≡ lines_text a ++ lines_text b
lines_text-append [] b = refl
lines_text-append (l ∷ a) b =
    ap (λ s. l ++ (b'\n' ∷ s)) (lines_text-append a b)
    ∙ sym (append_assoc l (b'\n' ∷ lines_text a) (lines_text b))

password_part-lines_text : (p : SeedParams) → password_part p ≡ lines_text (password_lines p)
unfolding password_part
password_part-lines_text p = elim (Bool-cases (is_empty p.password)) [
  | inl y ↦ rw (password_part, y) refl
  | inr n ↦ rw (password_part, n) (simp (append_assoc))
]

key_part-lines_text : (p : SeedParams) → key_part p ≡ lines_text (key_lines p)
unfolding key_part
key_part-lines_text p = elim (Bool-cases (is_empty p.ssh_key)) [
  | inl y ↦ rw (key_part, y) refl
  | inr n ↦ rw (key_part, n) refl
]

-- All lines
abbrev pub user_lines : SeedParams → List Bytes
user_lines p =
    codes "#cloud-config" ∷ (codes "hostname: " ++ p.hostname) ∷ (password_lines p ++ key_lines p)

user_data-lines_text : (p : SeedParams) → user_data p ≡ lines_text (user_lines p)
unfolding user_data
user_data-lines_text p =
    rw (lines_text-append, password_part-lines_text p, key_part-lines_text p) refl

unfoldable is_line : Bytes → Bool
is_line [] = true
is_line (c ∷ s) = let rest = is_line s in if c == b'\n' then false else rest

is_line-Lacks : (s : Bytes) → is_line s ≡ true → Lacks b'\n' s
unfolding is_line
is_line-Lacks [] e = tt
is_line-Lacks (c ∷ s) e = elim (Bool-cases (c == b'\n')) [
  | inl y ↦ absurd (cc (rw (is_line, y) at e))
  | inr n ↦ (ground arith, is_line-Lacks s (rw (is_line, n) at e))
]

label-Lacks : (label s : Bytes) → is_line label ≡ true → Lacks b'\n' s → Lacks b'\n' (label ++ s)
label-Lacks label s e h = All-append (λ c. c ≢ b'\n') label s (is_line-Lacks label e) h

password_lines-Lacks :
    (p : SeedParams)
    → Lacks b'\n' p.username
    → Lacks b'\n' p.password
    → All (Lacks b'\n') (password_lines p)
unfolding is_line
password_lines-Lacks p hu hp = elim (Bool-cases (is_empty p.password)) [
  | inl y ↦ rw y tt
  | inr n ↦ rw n (
    is_line-Lacks (codes "ssh_pwauth: true") refl,
    (
      is_line-Lacks (codes "chpasswd:") refl,
      (
        is_line-Lacks (codes "  expire: false") refl,
        (
          is_line-Lacks (codes "  users:") refl,
          (
            label-Lacks (codes "    - name: ") p.username refl hu,
            (
              label-Lacks (codes "      password: ") p.password refl hp,
              (is_line-Lacks (codes "      type: text") refl, tt),
            ),
          ),
        ),
      ),
    ),
  )
]

key_lines-Lacks :
    (p : SeedParams) → Lacks b'\n' (trim_space p.ssh_key) → All (Lacks b'\n') (key_lines p)
unfolding is_line
key_lines-Lacks p h = elim (Bool-cases (is_empty p.ssh_key)) [
  | inl y ↦ rw y tt
  | inr n ↦ rw n (
    is_line-Lacks (codes "ssh_authorized_keys:") refl,
    (label-Lacks (codes "  - ") (trim_space p.ssh_key) refl h, tt),
  )
]

-- Where host name, user, password and the trimmed key have no newline, the user data has exactly
-- these lines: the two of the head, the seven of a password that is not empty, with the user and the
-- password as they are, and the two of a key that is not empty. So no value adds a line.
pub user_data-split :
    (p : SeedParams)
    → Lacks b'\n' p.hostname
    → Lacks b'\n' p.username
    → Lacks b'\n' p.password
    → Lacks b'\n' (trim_space p.ssh_key)
    → split (user_data p) b'\n' ≡ user_lines p ++ ([] ∷ [])
unfolding is_line
user_data-split p hh hu hp hk =
    ap (λ s. split s b'\n') (user_data-lines_text p ∙ sym (append-nil (lines_text (user_lines p))))
    ∙ (split-lines_text (user_lines p) [] (
      is_line-Lacks (codes "#cloud-config") refl,
      (
        label-Lacks (codes "hostname: ") p.hostname refl hh,
        All-append (Lacks b'\n') (password_lines p) (key_lines p) (password_lines-Lacks p hu hp)
            (key_lines-Lacks p hk),
      ),
    )
        ∙ unfold split in refl)

write_files-ok :
    (io : SeedIo) (files written : List (Bytes × Bytes))
    → (write_files io files written).0 ≡ ok tt
    → (write_files io files written).1 ≡ written ++ files
unfolding write_files
write_files-ok io [] written e = sym (append-nil written)
write_files-ok io ((name, content) ∷ files) written e = elim (Bool-cases (io.write_ok name)) [
  | inl y ↦
      rw (write_files, y)
        (write_files-ok io files (written ++ ((name, content) ∷ [])) (rw (write_files, y) at e)
          ∙ append_assoc written ((name, content) ∷ []) files)
  | inr n ↦ absurd (cc (rw (write_files, n) at e))
]

-- The third way of two early returns with an error
both_made :
    (made formatted : Bool) (d d' : Disk) (x : Result SeedError (Unit {0}) × Disk)
    → (if not made
        then (err create_image, d)
        else if not formatted
        then (err format_image, d')
        else x).0
      ≡ ok tt
    → (x.0 ≡ ok tt)
      × ((if not made
            then (err create_image, d)
            else if not formatted
            then (err format_image, d')
            else x)
          ≡ x)
both_made false formatted d d' x e = absurd (cc e)
both_made true false d d' x e = absurd (cc e)
both_made true true d d' x e = (e, refl)

module _ (sha : Bytes → Bytes) (encode : Bytes → List (Bytes × Bytes) → Bytes) (blank : Bytes) where
  image_written-ok :
      (path : Bytes) (d : Disk) (x : Result SeedError (Unit {0}) × List (Bytes × Bytes))
      (files : List (Bytes × Bytes))
      → (x.0 ≡ ok tt → x.1 ≡ files)
      → (image_written sha encode blank path d x).0 ≡ ok tt
      → (image_written sha encode blank path d x).1
        ≡ write_file path (encode (codes "CIDATA") files) d
  unfolding image_written
  image_written-ok path d (r, files') files all e =
      ap (λ fs. write_file path (encode (codes "CIDATA") fs) d) (all e)

  -- A seed that is written without an error is the image labelled CIDATA of all its files, from the
  -- parameters with their defaults, and nothing else on the disk has changed.
  pub write_seed-ok :
      (io : SeedIo) (path : Bytes) (p : SeedParams) (d : Disk)
      → (write_seed sha encode blank io path p d).0 ≡ ok tt
      → (write_seed sha encode blank io path p d).1
        ≡ write_file path
            (encode (codes "CIDATA") (seed_files (with_defaults sha encode blank path p)))
            (remove path d)
  unfolding write_seed
  write_seed-ok io path p d e =
      let files = seed_files (with_defaults sha encode blank path p) in
      let (written, same) = both_made io.create_ok io.format_ok _ _ _ e in
      ap (λ x. x.1) same
      ∙ image_written-ok path (remove path d) (write_files io files []) files
          (write_files-ok io files []) written
