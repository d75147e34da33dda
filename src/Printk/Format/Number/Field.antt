-- ===== src/Printk/Format/Number/Field.antt =====
-- The field that `number` (lib/printk.c) makes of the digits.
use arm64os.Common.{
  ℕ, ◌+◌, ◌-◌, ◌≡◌, refl, arith, ap, ◌∙◌, not, ◌&&◌, ◌||◌, ◌==◌, if◌then◌else◌, List, [], ◌∷◌, ◌++◌,
  replicate, length, append_assoc, append-nil, Bool-cases, inl, inr,
}
use arm64os.Common.Int.{ℤ, pos, negsuc, ◌-ℤ◌, ltb_ℤ, pos_part}
use arm64os.Printk.{NumberType, pad, prefix, prefix_width, layout}
use arm64os.Printk.Format.Number.{base_text, in_room}

prefix-base_text : (t : NumberType) (base : ℕ) → prefix t base ≡ base_text t base
unfolding prefix
prefix-base_text t base = elim (Bool-cases t.special) [
  | inl special ↦ ground (arith, special)
  | inr no_special ↦ rw no_special
]

prefix_width-base_text :
    (t : NumberType) (base : ℕ) → prefix_width t base ≡ length (base_text t base)
unfolding prefix_width
prefix_width-base_text t base = elim (Bool-cases t.special) [
  | inl special ↦ elim (Bool-cases (base == 16)) [
    | inl is_16 ↦ rw (special, is_16)
    | inr not_16 ↦ elim (Bool-cases (base == 8)) [
      | inl is_8 ↦ rw (special, not_16, is_8)
      | inr not_8 ↦ rw (special, not_16, not_8)
    ]
  ]
  | inr no_special ↦ rw no_special
]

pad_first : (z : ℤ) (c : ℕ) → (pad z c).0 ≡ replicate (pos_part z) c
unfolding pad
pad_first (pos n) c = refl
pad_first (negsuc n) c = refl

pad_second : (z : ℤ) (c k : ℕ) → (pad (pad z c).1 k).0 ≡ []
unfolding pad
pad_second (pos n) c k = refl
pad_second (negsuc n) c k = refl

pad_third : (z : ℤ) (c k j : ℕ) → (pad (pad (pad z c).1 k).1 j).0 ≡ []
unfolding pad
pad_third (pos n) c k j = refl
pad_third (negsuc n) c k j = refl

wide_lem :
    (precision : ℤ) (i : ℕ)
    → (if ltb_ℤ precision (pos i) then pos i else precision) ≡ pos (pos_part precision - i + i)
wide_lem (pos n) i = ground arith
wide_lem (negsuc n) i = ground arith

room_lem : (size : ℤ) (a b : ℕ) → pos_part (size -ℤ pos a -ℤ pos b) ≡ pos_part size - a - b
room_lem (pos n) a b = ground arith
room_lem (negsuc n) a b = ground arith

zeros_lem : (m i : ℕ) → pos_part (pos (m + i) -ℤ pos i) ≡ m
zeros_lem m i = ground arith

-- `layout` with the prefix, its width, the precision and the room as they come out.
abbrev placed : NumberType → (signs before : List ℕ) → (room : ℤ) → (more ds : List ℕ) → List ℕ
placed t signs before room more ds =
    let zeropad = t.zeropad && not t.left in
    let (lead, size2) = if zeropad || t.left then ([], room) else pad room 32 in
    let (middle, size3) = if t.left then ([], size2) else pad size2 (if zeropad then 48 else 32) in
    lead ++ signs ++ before ++ middle ++ more ++ ds ++ (pad size3 32).0

placed-in_room :
    (t : NumberType) (signs before : List ℕ) (room : ℤ) (more ds : List ℕ)
    → placed t signs before room more ds ≡ in_room t (pos_part room) signs before (more ++ ds)
placed-in_room t signs before room more ds =
    let start = signs ++ before in
    let spaces = replicate (pos_part room) 32 in
    let zeros = replicate (pos_part room) 48 in
    elim (Bool-cases t.left) [
      | inl left ↦ elim (Bool-cases t.zeropad) [
        | inl zeropad ↦
            rw (left, zeropad, pad_first room 32, append-nil start, append_assoc start more ds)
        | inr blank ↦
            rw (left, blank, pad_first room 32, append-nil start, append_assoc start more ds)
      ]
      | inr right ↦ elim (Bool-cases t.zeropad) [
        | inl zeropad ↦
            rw (right, zeropad, pad_first room 48, pad_second room 48 32)
              (append-nil (start ++ zeros ++ more ++ ds) ∙ append_assoc (start ++ zeros) more ds)
        | inr blank ↦
            rw (right, blank, pad_first room 32, pad_second room 32 32, pad_third room 32 32 32)
              (append-nil (spaces ++ signs ++ before ++ [] ++ more ++ ds)
                ∙ ap (λ b. b ++ more ++ ds) (append-nil (spaces ++ signs ++ before))
                ∙ append_assoc (spaces ++ signs ++ before) more ds)
      ]
    ]

module _ (t : NumberType) (base sign : ℕ) (size precision : ℤ) (ds : List ℕ) where
  abbrev signs : List ℕ
  signs = if sign == 0 then [] else sign ∷ []

  abbrev zeros : ℕ
  zeros = pos_part precision - length ds

  abbrev layout_with : (before : List ℕ) → (before_width : ℕ) → (wide : ℤ) → List ℕ
  layout_with before before_width wide =
      placed t signs before (size -ℤ pos before_width -ℤ wide)
        (replicate (pos_part (wide -ℤ pos (length ds))) 48) ds

  layout-layout_with :
      layout t base sign size precision ds
      ≡ layout_with
          (prefix t base)
          (prefix_width t base)
          (if ltb_ℤ precision (pos (length ds)) then pos (length ds) else precision)
  unfolding layout
  layout-layout_with = refl

  pub layout_lem :
      layout t base sign size precision ds
      ≡ in_room t
          (pos_part size - length (base_text t base) - (zeros + length ds))
          signs
          (base_text t base)
          (replicate zeros 48 ++ ds)
  layout_lem =
      layout-layout_with
      ∙ ap
          (λ b.
            layout_with b (prefix_width t base)
              (if ltb_ℤ precision (pos (length ds)) then pos (length ds) else precision))
          (prefix-base_text t base)
      ∙ ap
          (λ w.
            layout_with (base_text t base) w
              (if ltb_ℤ precision (pos (length ds)) then pos (length ds) else precision))
          (prefix_width-base_text t base)
      ∙ ap (λ w. layout_with (base_text t base) (length (base_text t base)) w)
          (wide_lem precision (length ds))
      ∙ placed-in_room t signs (base_text t base)
          (size -ℤ pos (length (base_text t base)) -ℤ pos (zeros + length ds))
          (replicate (pos_part (pos (zeros + length ds) -ℤ pos (length ds))) 48) ds
      ∙ ap
          (λ r.
            in_room t r signs (base_text t base)
              (replicate (pos_part (pos (zeros + length ds) -ℤ pos (length ds))) 48 ++ ds))
          (room_lem size (length (base_text t base)) (zeros + length ds))
      ∙ ap
          (λ m.
            in_room t (pos_part size - length (base_text t base) - (zeros + length ds)) signs
              (base_text t base) (replicate m 48 ++ ds))
          (zeros_lem zeros (length ds))
