-- ===== src/Services/CloudConfig/Append.antt =====
-- Where `appendToUserDataCloudConfig` puts the commands.
use mathlib.Core.List.{append_assoc, append-nil}
use cluster_api_provider_vul.Base.{
  ℕ, zero, suc, ◌+◌, ◌≤◌, ◌<◌, ◌≡◌, refl, sym, ap, ◌∙◌, Option, none, some, List, [], ◌∷◌, ◌++◌,
  length, Bool, true, false, Bool-cases, leb, nat_eq, if◌then◌else◌, Outcome, ok, panic, arith, inl,
  inr, ◌⊎◌,
}
use cluster_api_provider_vul.Services.CloudConfig.{
  Bytes, bytes, take, drop, index_of, next_index, starts_with, runcmd_index, insert_commands,
  append_to_user_data_cloud_config,
}

-- The lines that are inserted, in their order.
abbrev pub command_lines : List Bytes → Bytes
command_lines [] = []
command_lines (cmd ∷ cmds) = (bytes "\n  - " ++ cmd) ++ command_lines cmds

take-drop : (n : ℕ) (s : Bytes) → take n s ++ drop n s ≡ s
take-drop zero s = refl
take-drop (suc n) [] = refl
take-drop (suc n) (c ∷ s) = ap (λ t. c ∷ t) (take-drop n s)

take-append : (t u : Bytes) → take (length t) (t ++ u) ≡ t
take-append [] u = refl
take-append (c ∷ t) u = ap (λ l. c ∷ l) (take-append t u)

drop-append : (t u : Bytes) → drop (length t) (t ++ u) ≡ u
drop-append [] u = refl
drop-append (c ∷ t) u = drop-append t u

length-take : (n : ℕ) (s : Bytes) → n ≤ length s → length (take n s) ≡ n
length-take zero s h = refl
length-take (suc n) [] h = absurd (omega arith)
length-take (suc n) (c ∷ s) h = ap suc (length-take n s (omega arith))

length-append : (s t : Bytes) → length (s ++ t) ≡ length s + length t
length-append [] t = omega arith
length-append (c ∷ s) t = omega (arith, length-append s t)

end_of_insert : (n : ℕ) (s t : Bytes) → n ≤ length s → n + length t ≡ length (take n s ++ t)
end_of_insert n s t h = omega (arith, length-append (take n s) t, length-take n s h)

take_insert :
    (n : ℕ) (s t u : Bytes)
    → n ≤ length s
    → take (n + length t) (take n s ++ t ++ u) ≡ take n s ++ t
take_insert n s t u h = rw (end_of_insert n s t h) (take-append (take n s ++ t) u)

drop_insert : (n : ℕ) (s t u : Bytes) → n ≤ length s → drop (n + length t) (take n s ++ t ++ u) ≡ u
drop_insert n s t u h = rw (end_of_insert n s t h) (drop-append (take n s ++ t) u)

length_insert : (n : ℕ) (s t u : Bytes) → n ≤ length s → n + length t ≤ length (take n s ++ t ++ u)
length_insert n s t u h =
    omega (arith, length-append (take n s ++ t) u, length-append (take n s) t, length-take n s h)

leb_of_le : (m n : ℕ) → m ≤ n → leb m n ≡ true
leb_of_le m n h = ground arith

leb_of_lt : (m n : ℕ) → n < m → leb m n ≡ false
leb_of_lt m n h = ground arith

insert_commands_at :
    (s : Bytes) (n : ℕ) (cmds : List Bytes)
    → n ≤ length s
    → insert_commands s n cmds ≡ ok (take n s ++ command_lines cmds ++ drop n s)
unfolding insert_commands
insert_commands_at s n [] h = rw (append-nil (take n s), take-drop n s) refl
insert_commands_at s n (cmd ∷ cmds) h =
    let line : Bytes = bytes "\n  - " ++ cmd in
    let s' : Bytes = take n s ++ line ++ drop n s in
    rw
      (
        leb_of_le n (length s) h,
        insert_commands_at s' (n + length line) cmds (length_insert n s line (drop n s) h),
        take_insert n s line (drop n s) h,
        drop_insert n s line (drop n s) h,
      )
      simp append_assoc

-- Past the end of the text, the first insertion panics.
insert_beyond :
    (s : Bytes) (n : ℕ) (cmd : Bytes) (cmds : List Bytes)
    → length s < n
    → insert_commands s n (cmd ∷ cmds) ≡ panic
unfolding insert_commands
insert_beyond s n cmd cmds h = rw (leb_of_lt n (length s) h)

starts_with_le : (s sep : Bytes) → starts_with s sep ≡ true → length sep ≤ length s
starts_with_le s [] h = omega arith
starts_with_le [] (d ∷ sep) h = cc
starts_with_le (c ∷ s) (d ∷ sep) h = ground (arith, starts_with_le s sep)

later_index :
    (s sep : Bytes) (i : ℕ)
    → next_index (index_of s sep) ≡ some i
    → (j : ℕ) × (index_of s sep ≡ some j) × (i ≡ suc j)
later_index s sep i h = go (index_of s sep) refl
  where
    go : (o : Option ℕ) → index_of s sep ≡ o → (j : ℕ) × (index_of s sep ≡ some j) × (i ≡ suc j)
    go none e = cc
    go (some j) e = (j, e, cc)

index_of_le : (s sep : Bytes) (i : ℕ) → index_of s sep ≡ some i → i + length sep ≤ length s
unfolding index_of
index_of_le [] sep i h = cc
index_of_le (c ∷ s) sep i h = elim (Bool-cases (starts_with (c ∷ s) sep)) [
  | inl here ↦ ground (arith, starts_with_le (c ∷ s) sep here)
  | inr later ↦
      let (j, found, next) = later_index s sep i (cc) in
      omega (arith, index_of_le s sep j found, next)
]

runcmd_index-some :
    (s : Bytes) (i : ℕ) → index_of s (bytes "runcmd:") ≡ some i → runcmd_index s ≡ i + 7
runcmd_index-some s i h = rw (runcmd_index, h) refl

runcmd_index-none : (s : Bytes) → index_of s (bytes "runcmd:") ≡ none → runcmd_index s ≡ 6
runcmd_index-none s h = rw (runcmd_index, h) refl

if_of_true : (b : Bool) (x y : Outcome Bytes) → b ≡ true → (if b then x else y) ≡ x
if_of_true b x y h = rw h

if_of_false : (b : Bool) (x y : Outcome Bytes) → b ≡ false → (if b then x else y) ≡ y
if_of_false b x y h = rw h

le_or_lt : (m n : ℕ) → (m ≤ n) ⊎ (n < m)
le_or_lt m n = omega arith

-- Where the user data has "runcmd:", first at the byte `i`, the commands stand right after it, in
-- their order, as the first entries of a list that is indented by two, and all else stays as it was.
pub append_after_runcmd :
    (s : Bytes) (cmds : List Bytes) (i : ℕ)
    → index_of s (bytes "runcmd:") ≡ some i
    → append_to_user_data_cloud_config s cmds
      ≡ ok (take (i + 7) s ++ command_lines cmds ++ drop (i + 7) s)
unfolding append_to_user_data_cloud_config
append_after_runcmd s cmds i h =
    rw (runcmd_index-some s i h)
      (insert_commands_at s (i + 7) cmds (index_of_le s (bytes "runcmd:") i h))

-- Where the user data has no "runcmd:", the commands are put after its sixth byte, and where it has
-- fewer than six bytes and there is a command, the call panics.
pub append_without_runcmd :
    (s cmd : Bytes) (cmds : List Bytes)
    → index_of s (bytes "runcmd:") ≡ none
    → append_to_user_data_cloud_config s (cmd ∷ cmds) ≡ (
        if leb 6 (length s) then ok (take 6 s ++ command_lines (cmd ∷ cmds) ++ drop 6 s) else panic)
unfolding append_to_user_data_cloud_config
append_without_runcmd s cmd cmds h = rw (runcmd_index-none s h) (elim (le_or_lt 6 (length s)) [
  | inl le ↦
      insert_commands_at s 6 (cmd ∷ cmds) le
      ∙ sym (if_of_true (leb 6 (length s)) _ panic (leb_of_le 6 (length s) le))
  | inr lt ↦
      insert_beyond s 6 cmd cmds lt
      ∙ sym (if_of_false (leb 6 (length s)) _ panic (leb_of_lt 6 (length s) lt))
])
