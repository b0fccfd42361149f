-- ===== src/Vic/Vectors.antt =====
-- The vector tables of the controller, through the calls of src/devices/pl190/Editor.cpp.
use nspire_utils.Base.{ℕ, ◌+◌, ◌*◌, ◌%◌, ◌<◌, ◌≡◌, refl, ap, ◌∙◌, arith}
use nspire_utils.Device.{Bus}
use nspire_utils.Vic.Editor.{
  VicEditor, get_vector_address, get_vector_control, set_vector_address, set_vector_control,
}
use nspire_utils.Vic.Registers.{IsPl190, put}
use nspire_utils.Vic.Restore.{
  read_lem, write_lem, write_addr, write_control, addr_offset, control_offset,
}

module _ {S : Type 0} (bus : Bus S) (e : VicEditor) (is : IsPl190 bus e.base_address) where
  open is use {regs}

  pub get_vector_address_lem :
      (j : ℕ) (s : S) → j < 16 → (get_vector_address bus e j s).0 ≡ (regs s).addrs j
  unfolding get_vector_address
  get_vector_address_lem j s below =
      let (holds, value) = addr_offset j (regs s) below in
      (read_lem bus e.base_address is (0x100 + j * 4) s (regs s) (omega arith) holds (omega arith)
        refl).0
      ∙ value

  pub get_vector_control_lem :
      (j : ℕ) (s : S) → j < 16 → (get_vector_control bus e j s).0 ≡ (regs s).controls j
  unfolding get_vector_control
  get_vector_control_lem j s below =
      let (holds, value) = control_offset j (regs s) below in
      (read_lem bus e.base_address is (0x200 + j * 4) s (regs s) (omega arith) holds (omega arith)
        refl).0
      ∙ value

  -- On a PL190, `setVectorAddress` and `setVectorControl` of vector i give it that address and the
  -- low six bits of that control, and leave both tables as they were at every other of the sixteen
  -- vectors.
  vector-set_vector :
      (i j address control : ℕ) (s : S)
      → i < 16
      → j < 16
      → let s' = (set_vector_control bus e i control (set_vector_address bus e i address s).1).1 in
        ((get_vector_address bus e j s').0
          ≡ put (λ k. (get_vector_address bus e k s).0) i address j)
        × ((get_vector_control bus e j s').0
            ≡ put (λ k. (get_vector_control bus e k s).0) i (control % 64) j)
  unfolding set_vector_address set_vector_control
  vector-set_vector i j address control s i_below j_below =
      let s₁ = bus.write (e.base_address + 0x100 + i * 4) address s in
      let s' = bus.write (e.base_address + 0x200 + i * 4) control s₁ in
      let r = regs s in
      let r₁ = record r { addrs = put r.addrs i address } in
      let e₁ : regs s₁ ≡ r₁ =
        write_lem bus e.base_address is (0x100 + i * 4) address s (omega arith) refl
        ∙ write_addr i address r i_below in
      let e₂ : regs s' ≡ record r₁ { controls = put r.controls i (control % 64) } =
        write_lem bus e.base_address is (0x200 + i * 4) control s₁ (omega arith) e₁
        ∙ write_control i control r₁ i_below in
      (
        get_vector_address_lem j s' j_below
            ∙ ap (λ q. q.addrs j) e₂
            ∙ rw (get_vector_address_lem j s j_below) refl,
        get_vector_control_lem j s' j_below
            ∙ ap (λ q. q.controls j) e₂
            ∙ rw (get_vector_control_lem j s j_below) refl,
      )
