-- ===== src/Users/Login.antt =====
-- Logging in with a password that was set.
use blackmount.Common.{
  ℕ, zero, suc, ◌+◌, ◌≤◌, ◌<◌, ◌≡◌, ◌≢◌, refl, sym, ap, ◌∙◌, append_assoc, append-nil, Bool, true,
  List, [], ◌∷◌, ◌++◌, Option, none, some, length, length-append, get_or, get_or-set_self, set,
  take, drop, All, ◌&&◌, not, if◌then◌else◌, inl, inr, Bool-cases, arith,
}
use blackmount.Common.Int.{ℤ, pos, negsuc, minus_one}
use blackmount.Users.{
  Accounts, User, shadow_hash_len, no_user, user_at, u_strncmp, str_eq, find_entry, user_exists,
  user_find_by_name,
}
use blackmount.Users.Hex.{to_hex, from_hex, from_hex-to_hex, length-to_hex, IsByte}
use blackmount.Users.Passwords.{
  gen_salt, salt_bytes, scheme, write_string, shadow_text, user_set_password, is_zero,
  check_password, user_authenticate,
}
use blackmount.Users.Compare.{
  u_strncmp_same, u_strncmp_zero, take_all, drop_append, to_hex-IsNonzero, to_hex_inj,
}

length-salt_bytes : (s i n : ℕ) → length (salt_bytes s i n) ≡ n
unfolding salt_bytes
length-salt_bytes s i zero = refl
length-salt_bytes s i (suc n) = ap suc (length-salt_bytes s (i + 1) n)

salt_bytes-IsByte : (s i n : ℕ) → All IsByte (salt_bytes s i n)
unfolding salt_bytes
salt_bytes-IsByte s i zero = tt
salt_bytes-IsByte s i (suc n) = (omega arith, salt_bytes-IsByte s (i + 1) n)

-- What `sha256` promises: 32 bytes, whatever it hashes.
pub record IsHash (sha256 : List ℕ → List ℕ) : Type 0 where
  pub length_32 : (input : List ℕ) → length (sha256 input) ≡ 32
  pub in_bytes : (input : List ℕ) → All IsByte (sha256 input)

-- The stored text of a password: what follows it in the array does not matter.
stored_text : List ℕ → List ℕ → List ℕ → List ℕ
unfolding shadow_text to_hex
stored_text salt hash tail = scheme ++ to_hex salt ++ 36 ∷ (to_hex hash ++ tail)

write_string-shadow_text :
    (buf salt hash : List ℕ)
    → length salt ≡ 8
    → length hash ≡ 32
    → (tail : List ℕ) × (write_string buf shadow_hash_len (shadow_text salt hash)
        ≡ stored_text salt hash tail)
unfolding write_string shadow_text stored_text
write_string-shadow_text buf salt hash es eh =
    let text : List ℕ = shadow_text salt hash in
    let tail : List ℕ = 0 ∷ drop (length (take 127 text) + 1) buf in
    let short : length text ≤ 127 = omega (
      arith,
      length-append (to_hex salt) (36 ∷ to_hex hash),
      length-to_hex salt,
      length-to_hex hash,
      es,
      eh,
    ) in
    (
      tail,
      ap (λ (l : List ℕ). l ++ tail) (take_all 127 text short)
          ∙ ap (λ (l : List ℕ). scheme ++ l) (append_assoc (to_hex salt) (36 ∷ to_hex hash) tail),
    )

module _ (sha256 : List ℕ → List ℕ) (promise : IsHash sha256) where
  check_password-stored_text :
      (u : ℕ) (salt hash tail password : List ℕ)
      → length salt ≡ 8
      → All IsByte salt
      → check_password sha256 true u (stored_text salt hash tail) password ≡ (
          if not (is_zero (u_strncmp (to_hex (sha256 (salt ++ password))) (to_hex hash ++ tail) 64))
          then negsuc 5
          else pos u)
  unfolding check_password stored_text
  check_password-stored_text u salt hash tail password es hs =
      let len : length (to_hex salt) ≡ 16 = omega (arith, length-to_hex salt, es) in
      let cut : drop 17 (to_hex salt ++ 36 ∷ (to_hex hash ++ tail)) ≡ to_hex hash ++ tail =
        drop_append 16 (to_hex salt) 36 (to_hex hash ++ tail) len in
      let back : from_hex 8 (to_hex salt ++ 36 ∷ (to_hex hash ++ tail)) ≡ salt =
        ap (λ (n : ℕ). from_hex n (to_hex salt ++ 36 ∷ (to_hex hash ++ tail))) (sym es)
        ∙ from_hex-to_hex salt (36 ∷ (to_hex hash ++ tail)) hs in
      let agrees = u_strncmp_same scheme (to_hex salt ++ 36 ∷ (to_hex hash ++ tail)) [] 8 refl in
      rw (ap is_zero agrees, back, cut) refl

  -- The verdict on a password whose stored text was made from `salt` and `hash`.
  check_password_verdict :
      (u : ℕ) (salt hash tail password : List ℕ)
      → length salt ≡ 8
      → All IsByte salt
      → length hash ≡ 32
      → All IsByte hash
      → ((sha256 (salt ++ password) ≡ hash)
          → check_password sha256 true u (stored_text salt hash tail) password ≡ pos u)
        × ((sha256 (salt ++ password) ≢ hash)
            → check_password sha256 true u (stored_text salt hash tail) password ≡ negsuc 5)
  unfolding stored_text
  check_password_verdict u salt hash tail password es hs eh hh =
      let h : List ℕ = sha256 (salt ++ password) in
      let run = check_password-stored_text u salt hash tail password es hs in
      let len : length (to_hex h) ≡ 64 =
        omega (arith, length-to_hex h, promise.length_32 (salt ++ password)) in
      let len' : length (to_hex hash) ≡ 64 = omega (arith, length-to_hex hash, eh) in
      let pad : (l : List ℕ)
          → is_zero (u_strncmp l (to_hex hash ++ tail) 64)
            ≡ is_zero (u_strncmp (l ++ []) (to_hex hash ++ tail) 64) =
        λ l.
          ap (λ (m : List ℕ). is_zero (u_strncmp m (to_hex hash ++ tail) 64))
            (sym (append-nil l)) in
      (
        λ same.
            run
            ∙ (rw
                (same, pad (to_hex hash), ap is_zero (u_strncmp_same (to_hex hash) [] tail 64 len'))
                refl),
        λ other. run ∙ elim (Bool-cases (is_zero (u_strncmp (to_hex h) (to_hex hash ++ tail) 64))) [
          | inl equal ↦ absurd (
              other (
                to_hex_inj h hash (promise.in_bytes (salt ++ password)) hh
                  (promise.length_32 (salt ++ password) ∙ sym eh)
                  (u_strncmp_zero (to_hex h) (to_hex hash) [] tail 64 len len'
                    (to_hex-IsNonzero h (promise.in_bytes (salt ++ password)))
                    (sym (pad (to_hex h)) ∙ equal))))
          | inr differs ↦ rw differs refl
        ],
      )

-- A search looks at each entry only through its test.
find_entry-set :
    (test : User → Bool) (us : List User) (i k : ℕ) (u : User)
    → i < length us
    → test u ≡ test (get_or us i no_user)
    → find_entry test (set us i u) k ≡ find_entry test us k
unfolding find_entry
find_entry-set test [] i k u near e = refl
find_entry-set test (t ∷ us) zero k u near e = rw e refl
find_entry-set test (t ∷ us) (suc i) k u near e = elim (Bool-cases (test t)) [
  | inl fits ↦ rw fits refl
  | inr other ↦ rw other (find_entry-set test us i (k + 1) u (omega arith) e)
]

-- The salt that `user_set_password` draws.
abbrev pub drawn_salt : Accounts → List ℕ
unfolding gen_salt salt_bytes
drawn_salt acc = salt_bytes (gen_salt acc.salt_state) 0 8

length-drawn_salt : (acc : Accounts) → length (drawn_salt acc) ≡ 8
unfolding drawn_salt
length-drawn_salt acc = length-salt_bytes (gen_salt acc.salt_state) 0 8

drawn_salt-IsByte : (acc : Accounts) → All IsByte (drawn_salt acc)
unfolding drawn_salt
drawn_salt-IsByte acc = salt_bytes-IsByte (gen_salt acc.salt_state) 0 8

-- The user's entry with a new text in its array, after `s` was drawn.
rehashed : Accounts → ℕ → ℕ → List ℕ → Accounts
unfolding write_string
rehashed acc u s text = record acc {
  salt_state = s;
  users = set acc.users u (record (user_at acc u) {
    password_hash = write_string (user_at acc u).password_hash shadow_hash_len text;
  });
}

user_set_password_run :
    (sha256 : List ℕ → List ℕ) (acc : Accounts) (u : ℕ) (password : List ℕ)
    → user_exists acc (pos u) ≡ true
    → user_set_password sha256 true acc (pos u) (some password) ≡ (
      pos 0,
      rehashed acc u
          (gen_salt acc.salt_state)
          (shadow_text (drawn_salt acc) (sha256 (drawn_salt acc ++ password))),
    )
unfolding user_set_password rehashed drawn_salt
user_set_password_run sha256 acc u password exists = rw exists refl

user_authenticate_run :
    (sha256 : List ℕ → List ℕ) (acc : Accounts) (u : ℕ) (name attempt : List ℕ)
    → user_find_by_name acc name ≡ pos u
    → user_authenticate sha256 true acc (some name) (some attempt)
      ≡ check_password sha256 true u (user_at acc u).password_hash attempt
unfolding user_authenticate
user_authenticate_run sha256 acc u name attempt found = rw (found, user_authenticate) refl

user_find_by_name-rehashed :
    (acc : Accounts) (u s : ℕ) (text name : List ℕ)
    → u < length acc.users
    → user_find_by_name (rehashed acc u s text) name ≡ user_find_by_name acc name
unfolding user_find_by_name rehashed
user_find_by_name-rehashed acc u s text name near =
    ap (λ (o : Option ℕ). elim o as (λ x. ℤ) [ none ↦ minus_one | some i ↦ pos i ])
      (find_entry-set (λ (v : User). v.exists && str_eq v.username name) acc.users u 0
        (record (user_at acc u) {
          password_hash = write_string (user_at acc u).password_hash shadow_hash_len text;
        })
        near refl)

password_hash-rehashed :
    (acc : Accounts) (u s : ℕ) (text : List ℕ)
    → u < length acc.users
    → (user_at (rehashed acc u s text) u).password_hash
      ≡ write_string (user_at acc u).password_hash shadow_hash_len text
unfolding rehashed
password_hash-rehashed acc u s text near =
    ap (λ (v : User). v.password_hash)
      (get_or-set_self acc.users u
        (record (user_at acc u) {
          password_hash = write_string (user_at acc u).password_hash shadow_hash_len text;
        })
        no_user near)

-- For a hash function with 32 bytes of output: once an existing user's password is set, to log in
-- under the user's name, if no earlier entry has it, gives the user for each text whose salted hash
-- is that of the password, hence for the password itself, and the error -6 for every other text.
pub user_authenticate-user_set_password :
    (sha256 : List ℕ → List ℕ) (acc : Accounts) (u : ℕ) (name password attempt : List ℕ)
    → IsHash sha256
    → u < length acc.users
    → user_exists acc (pos u) ≡ true
    → user_find_by_name acc name ≡ pos u
    → let salt = drawn_salt acc in
      let (code, acc') = user_set_password sha256 true acc (pos u) (some password) in
      (code ≡ pos 0)
      × ((sha256 (salt ++ attempt) ≡ sha256 (salt ++ password))
          → user_authenticate sha256 true acc' (some name) (some attempt) ≡ pos u)
      × ((sha256 (salt ++ attempt) ≢ sha256 (salt ++ password))
          → user_authenticate sha256 true acc' (some name) (some attempt) ≡ negsuc 5)
user_authenticate-user_set_password sha256 acc u name password attempt promise near exists found =
    let salt : List ℕ = drawn_salt acc in
    let hash : List ℕ = sha256 (salt ++ password) in
    let acc' : Accounts = rehashed acc u (gen_salt acc.salt_state) (shadow_text salt hash) in
    let long : length salt ≡ 8 = length-drawn_salt acc in
    let (tail, stored) =
      write_string-shadow_text (user_at acc u).password_hash salt hash long
        (promise.length_32 (salt ++ password)) in
    let run =
      user_authenticate_run sha256 acc' u name attempt (
        user_find_by_name-rehashed acc u (gen_salt acc.salt_state) (shadow_text salt hash) name near
        ∙ found)
      ∙ ap (λ (text : List ℕ). check_password sha256 true u text attempt)
          (password_hash-rehashed acc u (gen_salt acc.salt_state) (shadow_text salt hash) near
            ∙ stored) in
    let verdict =
      check_password_verdict sha256 promise u salt hash tail attempt long (drawn_salt-IsByte acc)
        (promise.length_32 (salt ++ password)) (promise.in_bytes (salt ++ password)) in
    rw (user_set_password_run sha256 acc u password exists)
      (refl, λ same. run ∙ verdict.0 same, λ other. run ∙ verdict.1 other)
