-- ===== src/Mmu/Fields.antt =====
-- The helpers of MMUEditor.hpp as arithmetic on the entry, and their round trips.
use nspire_utils.Base.{
  Bool, true, ◌&&◌, ℕ, ◌*◌, ◌/◌, ◌%◌, ◌^◌, ◌<◌, bit_and, bit_or, ◌≡◌, refl, ap, ◌∙◌, arith, ◌==◌,
}
use nspire_utils.Word.Mask.{bit_and_field}
use nspire_utils.Word.Shift.{bit_or-div, bit_or-mod}
use nspire_utils.Mmu.Descriptor.{
  l1_entry_mapped_address, MmuAccessPermission, no_access, privileged_only, user_read_only,
  full_access, access_bits, l2_subpage_access_permissions, access_permissions_from_l2_page_entry,
  Permissions, select_domain, domain_from_entry, descriptor_of_bits, descriptor_type_from_entry,
}

-- A test on every permission, and on all four of a page by a table of its 256 cases.
all_access : (MmuAccessPermission → Bool) → Bool
all_access p = p no_access && p privileged_only && p user_read_only && p full_access

all_access_sound :
    (p : MmuAccessPermission → Bool) (x : MmuAccessPermission) → all_access p ≡ true → p x ≡ true
unfolding all_access
all_access_sound p no_access h = ground arith
all_access_sound p privileged_only h = ground arith
all_access_sound p user_read_only h = ground arith
all_access_sound p full_access h = ground arith

same_access : MmuAccessPermission → MmuAccessPermission → Bool
same_access x y = access_bits x == access_bits y

eq_of_same_access : (x y : MmuAccessPermission) → same_access x y ≡ true → x ≡ y
unfolding same_access
eq_of_same_access x y h = ground arith

agree : Permissions → Permissions → Bool
agree (a, b, c, d) (e, f, g, h) =
    same_access a e && same_access b f && same_access c g && same_access d h

eq_of_agree : (p q : Permissions) → agree p q ≡ true → p ≡ q
unfolding agree
eq_of_agree (a, b, c, d) (e, f, g, h) ok = ground (
  arith,
  eq_of_same_access a e,
  eq_of_same_access b f,
  eq_of_same_access c g,
  eq_of_same_access d h,
)

read_back :
    MmuAccessPermission → MmuAccessPermission → MmuAccessPermission → MmuAccessPermission → Bool
read_back a b c d =
    agree (access_permissions_from_l2_page_entry (l2_subpage_access_permissions a b c d))
      (a, b, c, d)

table : Bool
table = all_access λ a. all_access λ b. all_access λ c. all_access λ d. read_back a b c d

table_lem : table ≡ true
unfolding table all_access agree same_access read_back access_permissions_from_l2_page_entry
    l2_subpage_access_permissions
table_lem = refl

-- The four subpage permissions that a descriptor of them holds are read back from it.
subpages_low :
    (a b c d : MmuAccessPermission)
    → access_permissions_from_l2_page_entry (l2_subpage_access_permissions a b c d) ≡ (a, b, c, d)
unfolding table read_back
subpages_low a b c d = eq_of_agree _ _ (
    all_access_sound _ d
      (all_access_sound _ c (all_access_sound _ b (all_access_sound _ a table_lem))))

access_permissions_mod :
    (e : ℕ)
    → access_permissions_from_l2_page_entry e ≡ access_permissions_from_l2_page_entry (e % 2 ^ 12)
unfolding access_permissions_from_l2_page_entry
access_permissions_mod e = ground (
  arith,
  bit_and_field 2 4 e,
  bit_and_field 2 6 e,
  bit_and_field 2 8 e,
  bit_and_field 2 10 e,
  bit_and_field 2 4 (e % 2 ^ 12),
  bit_and_field 2 6 (e % 2 ^ 12),
  bit_and_field 2 8 (e % 2 ^ 12),
  bit_and_field 2 10 (e % 2 ^ 12),
)

pub mapped_address_lem : (e : ℕ) → e < 2 ^ 32 → l1_entry_mapped_address e ≡ e / 2 ^ 20 * 2 ^ 20
unfolding l1_entry_mapped_address
mapped_address_lem e h = omega (arith, bit_and_field 12 20 e)

pub domain_from_entry_lem : (e : ℕ) → domain_from_entry e ≡ e / 2 ^ 5 % 16
unfolding domain_from_entry
domain_from_entry_lem e = omega (arith, bit_and_field 4 0 (e / 2 ^ 5))

pub select_domain_lem : (d : ℕ) → select_domain d ≡ d % 16 * 32
unfolding select_domain
select_domain_lem d = omega (arith, bit_and_field 4 0 d)

descriptor_type_lem : (e : ℕ) → descriptor_type_from_entry e ≡ descriptor_of_bits (e % 4)
unfolding descriptor_type_from_entry
descriptor_type_lem e =
    let low : bit_and e 3 ≡ e % 4 = omega (arith, bit_and_field 2 0 e) in ap descriptor_of_bits low

-- A field of `a | b` is `|` of the fields.
pub bit_or_field :
    (k j a b : ℕ) → bit_or a b / 2 ^ k % 2 ^ j ≡ bit_or (a / 2 ^ k % 2 ^ j) (b / 2 ^ k % 2 ^ j)
bit_or_field k j a b = ap (λ t. t % 2 ^ j) (bit_or-div k a b) ∙ bit_or-mod j (a / 2 ^ k) (b / 2 ^ k)

-- The same for the four operands of an entry.
pub bit_or_fields :
    (k j a b c d : ℕ)
    → bit_or (bit_or (bit_or a b) c) d / 2 ^ k % 2 ^ j
      ≡ bit_or
          (bit_or (bit_or (a / 2 ^ k % 2 ^ j) (b / 2 ^ k % 2 ^ j)) (c / 2 ^ k % 2 ^ j))
          (d / 2 ^ k % 2 ^ j)
bit_or_fields k j a b c d = rw (
  bit_or_field k j (bit_or (bit_or a b) c) d,
  bit_or_field k j (bit_or a b) c,
  bit_or_field k j a b,
)
