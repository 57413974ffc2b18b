-- ===== src/Users/Passwords.antt =====
-- `user_set_password` and `user_authenticate` of user.c.
use blackmount.Common.{
  ℕ, zero, suc, ◌+◌, ◌-◌, ◌*◌, ◌/◌, ◌%◌, ◌^◌, bit_xor, Bool, false, List, [], ◌∷◌, ◌++◌, Option,
  none, some, length, set, take, drop, ◌==◌, ◌||◌, not, if◌then◌else◌,
}
use blackmount.Common.Int.{ℤ, pos, negsuc, minus_one}
use blackmount.Users.{
  Accounts, shadow_hash_len, user_at, first, u_strncmp, user_exists, user_find_by_name,
}
use blackmount.Users.Hex.{to_hex, from_hex}

-- `gen_salt`; the new state is the salt.
unfoldable pub gen_salt : ℕ → ℕ
gen_salt s =
    let a = bit_xor s (s * 2 ^ 13 % 2 ^ 64) in
    let b = bit_xor a (a / 2 ^ 7) in bit_xor b (b * 2 ^ 17 % 2 ^ 64)

-- `(uint8_t)(s >> (i * 8))` for the `n` values of `i` from `i` on.
unfoldable pub salt_bytes : ℕ → ℕ → ℕ → List ℕ
salt_bytes s i zero = []
salt_bytes s i (suc n) = s / 2 ^ (i * 8) % 256 ∷ salt_bytes s (i + 1) n

-- "$sha256$"
abbrev pub scheme : List ℕ
scheme = 36 ∷ 115 ∷ 104 ∷ 97 ∷ 50 ∷ 53 ∷ 54 ∷ 36 ∷ []

-- `u_fmt` of a string into an array: it is cut to the size, and the array's end stays.
unfoldable pub write_string : List ℕ → ℕ → List ℕ → List ℕ
write_string buf size text =
    take (size - 1) text ++ 0 ∷ drop (length (take (size - 1) text) + 1) buf

-- "$sha256$%s$%s"
unfoldable pub shadow_text : List ℕ → List ℕ → List ℕ
unfolding to_hex
shadow_text salt hash = scheme ++ to_hex salt ++ 36 ∷ to_hex hash

unfoldable pub user_set_password :
    (List ℕ → List ℕ) → Bool → Accounts → ℤ → Option (List ℕ) → ℤ × Accounts
unfolding gen_salt salt_bytes write_string shadow_text user_exists
user_set_password sha256 granted acc uid none = (minus_one, acc)
user_set_password sha256 granted acc (negsuc n) (some password) = (minus_one, acc)
user_set_password sha256 granted acc (pos u) (some password) =
    if not (user_exists acc (pos u))
    then (minus_one, acc)
    else let s : ℕ = gen_salt acc.salt_state in
      let salt : List ℕ = salt_bytes s 0 8 in
      if not granted then (minus_one, record acc { salt_state = s }) else (
        pos 0,
        record acc {
          salt_state = s;
          users = set acc.users u (record (user_at acc u) {
            password_hash =
                write_string (user_at acc u).password_hash shadow_hash_len
                  (shadow_text salt (sha256 (salt ++ password)));
          });
        },
      )

abbrev pub is_zero : ℤ → Bool
is_zero (pos n) = n == 0
is_zero (negsuc n) = false

-- The part of `user_authenticate` that looks at the stored text.
unfoldable pub check_password : (List ℕ → List ℕ) → Bool → ℕ → List ℕ → List ℕ → ℤ
unfolding to_hex from_hex
check_password sha256 granted u stored password =
    if first stored == 0 || first stored == 33
    then negsuc 2
    else if not (is_zero (u_strncmp stored scheme 8))
    then negsuc 3
    else if not granted
    then negsuc 4
    else let salt : List ℕ = from_hex 8 (drop 8 stored) in
      if not (is_zero (u_strncmp (to_hex (sha256 (salt ++ password))) (drop 17 (drop 8 stored)) 64))
      then negsuc 5
      else pos u

unfoldable pub user_authenticate :
    (List ℕ → List ℕ) → Bool → Accounts → Option (List ℕ) → Option (List ℕ) → ℤ
unfolding user_find_by_name check_password
user_authenticate sha256 granted acc none password = minus_one
user_authenticate sha256 granted acc (some username) none = minus_one
user_authenticate sha256 granted acc (some username) (some password) =
    elim (user_find_by_name acc username) [
      | negsuc n ↦ negsuc 1
      | pos u ↦ check_password sha256 granted u (user_at acc u).password_hash password
    ]
