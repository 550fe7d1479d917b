-- ===== src/Actors/Vectors.antt =====
-- Server/Common/Utility/unity.cpp: the arithmetic of vectors and quaternions.
use project_run_server.Gimmicks.{Vector3}
use project_run_server.Actors.{MotionFloats, Quaternion, zero_f, one_f}

module _ {F : Type 0} (fl : MotionFloats F) where
  -- the operators of floats, as the code writes them
  infixl 6 ◌⊞◌ ◌⊟◌
  infixl 7 ◌⊠◌
  abbrev pub ◌⊞◌ : F → F → F
  a ⊞ b = fl.calc.add a b

  abbrev pub ◌⊟◌ : F → F → F
  a ⊟ b = fl.calc.sub a b

  abbrev pub ◌⊠◌ : F → F → F
  a ⊠ b = fl.calc.mul a b

  -- `Vector3_Distance`
  unfoldable pub vector3_distance : Vector3 F → Vector3 F → F
  vector3_distance a b =
      let dx = a.x ⊟ b.x in
      let dy = a.y ⊟ b.y in let dz = a.z ⊟ b.z in fl.calc.sqrt (dx ⊠ dx ⊞ dy ⊠ dy ⊞ dz ⊠ dz)

  -- `Vector3_Distance2D`
  unfoldable pub vector3_distance2d : Vector3 F → Vector3 F → F
  vector3_distance2d a b =
      let dx = a.x ⊟ b.x in let dz = a.z ⊟ b.z in fl.calc.sqrt (dx ⊠ dx ⊞ dz ⊠ dz)

  abbrev pub vector3_right : Vector3 F
  vector3_right = record { x = one_f fl.calc; y = zero_f fl.calc; z = zero_f fl.calc }

  abbrev pub vector3_forward : Vector3 F
  vector3_forward = record { x = zero_f fl.calc; y = zero_f fl.calc; z = one_f fl.calc }

  unfoldable pub vector3_multiply : Vector3 F → F → Vector3 F
  vector3_multiply a b = record { x = a.x ⊠ b; y = a.y ⊠ b; z = a.z ⊠ b }

  unfoldable pub vector3_addition : Vector3 F → Vector3 F → Vector3 F
  vector3_addition a b = record { x = a.x ⊞ b.x; y = a.y ⊞ b.y; z = a.z ⊞ b.z }

  -- `Quaternion_Multiply`
  unfoldable pub quaternion_multiply : Quaternion F → Vector3 F → Vector3 F
  quaternion_multiply rotation point =
      let x = rotation.x ⊠ fl.calc.ratio 2 1 in
      let y = rotation.y ⊠ fl.calc.ratio 2 1 in
      let z = rotation.z ⊠ fl.calc.ratio 2 1 in
      let xx = rotation.x ⊠ x in
      let yy = rotation.y ⊠ y in
      let zz = rotation.z ⊠ z in
      let xy = rotation.x ⊠ y in
      let xz = rotation.x ⊠ z in
      let yz = rotation.y ⊠ z in
      let wx = rotation.w ⊠ x in
      let wy = rotation.w ⊠ y in
      let wz = rotation.w ⊠ z in
      record {
        x = (one_f fl.calc ⊟ (yy ⊞ zz)) ⊠ point.x ⊞ (xy ⊟ wz) ⊠ point.y ⊞ (xz ⊞ wy) ⊠ point.z;
        y = (xy ⊞ wz) ⊠ point.x ⊞ (one_f fl.calc ⊟ (xx ⊞ zz)) ⊠ point.y ⊞ (yz ⊟ wx) ⊠ point.z;
        z = (xz ⊟ wy) ⊠ point.x ⊞ (yz ⊞ wx) ⊠ point.y ⊞ (one_f fl.calc ⊟ (xx ⊞ yy)) ⊠ point.z;
      }
