-- ===== src/Config/Posture.antt =====
-- The postures of config/schema.ts: every shape that is not recognised lands on deny.
use warehousd.Prelude.{String, ◌≡◌, refl, Option, none, some, ◌==◌, eq_iff, arith, if◌then◌else◌}

pub data ReadPosture : Type 0 where
  allow mask deny : ReadPosture

pub data Access : Type 0 where
  allow deny : Access

pub record NormalizedPosture : Type 0 where
  pub read : ReadPosture
  pub write : Access
  pub unmask : Access

-- A posture as it stands in the file: one word, an object with `read` and `write` (a key that is
-- not a string is `none`), or anything else.
pub data PostureInput : Type 0 where
  word : String → PostureInput
  axes : Option String → Option String → Option String → PostureInput
  other : PostureInput

pub read_level : Option String → ReadPosture
read_level none = ReadPosture.deny
read_level (some s) =
    if s == "allow"
    then ReadPosture.allow
    else if s == "mask"
    then ReadPosture.mask
    else ReadPosture.deny

access_level : Option String → Access
access_level none = Access.deny
access_level (some s) = if s == "allow" then Access.allow else Access.deny

-- `unmask` counts beside `read: mask` alone.
pub unmask_level : ReadPosture → Option String → Access
unfolding access_level
unmask_level ReadPosture.mask o = access_level o
unmask_level _ o = Access.deny

unfoldable pub normalize_posture : PostureInput → NormalizedPosture
unfolding read_level access_level unmask_level
normalize_posture (word s) = record {
  read = if s == "allow" then ReadPosture.allow else ReadPosture.deny;
  write = Access.deny;
  unmask = Access.deny;
}
normalize_posture (axes r w u) = record {
  read = read_level r;
  write = access_level w;
  unmask = unmask_level (read_level r) u;
}
normalize_posture other = record {
  read = ReadPosture.deny;
  write = Access.deny;
  unmask = Access.deny;
}

read_word : ReadPosture → String
read_word ReadPosture.allow = "allow"
read_word ReadPosture.mask = "mask"
read_word ReadPosture.deny = "deny"

access_word : Access → String
access_word Access.allow = "allow"
access_word Access.deny = "deny"

-- A normalised posture as it is stored back on the field, by the transform of `CollectionSchema`.
pub stored_posture : NormalizedPosture → PostureInput
unfolding read_word access_word
stored_posture p =
    axes (some (read_word p.read)) (some (access_word p.write)) (some (access_word p.unmask))

access_level-eq-allow : (o : Option String) → access_level o ≡ Access.allow → o ≡ some "allow"
unfolding access_level
access_level-eq-allow none h = cc
access_level-eq-allow (some s) h = ground (arith, eq_iff s "allow")

read_level-eq-mask : (o : Option String) → read_level o ≡ ReadPosture.mask → o ≡ some "mask"
unfolding read_level
read_level-eq-mask none h = cc
read_level-eq-mask (some s) h = ground (arith, eq_iff s "mask")

pub unmask_level-eq-allow :
    (r : ReadPosture) (o : Option String)
    → unmask_level r o ≡ Access.allow
    → (r ≡ ReadPosture.mask) × (o ≡ some "allow")
unfolding unmask_level
unmask_level-eq-allow ReadPosture.mask o h = (refl, access_level-eq-allow o h)
unmask_level-eq-allow ReadPosture.allow o h = cc
unmask_level-eq-allow ReadPosture.deny o h = cc

-- Writing is open only where the file says so, and raw values are grantable only where it says
-- `unmask: allow` beside `read: mask`.
pub normalize_posture_closed :
    (p : PostureInput)
    → ((normalize_posture p).write ≡ Access.allow
        → (r : Option String) × (u : Option String) × (p ≡ axes r (some "allow") u))
      × ((normalize_posture p).unmask ≡ Access.allow
          → (w : Option String) × (p ≡ axes (some "mask") w (some "allow")))
unfolding normalize_posture
normalize_posture_closed (word s) = (λ h. cc, λ h. cc)
normalize_posture_closed other = (λ h. cc, λ h. cc)
normalize_posture_closed (axes r w u) = (
  λ h. (r, u, cc (access_level-eq-allow w h)),
  λ h.
      let (is_mask, is_allow) = unmask_level-eq-allow (read_level r) u h in
      (w, cc (read_level-eq-mask r is_mask, is_allow)),
)

read_level-read_word : (r : ReadPosture) → read_level (some (read_word r)) ≡ r
unfolding read_level read_word
read_level-read_word ReadPosture.allow = refl
read_level-read_word ReadPosture.mask = refl
read_level-read_word ReadPosture.deny = refl

access_level-access_word : (a : Access) → access_level (some (access_word a)) ≡ a
unfolding access_level access_word
access_level-access_word Access.allow = refl
access_level-access_word Access.deny = refl

-- What a normalised posture satisfies: nothing is unmaskable unless it is masked.
unmask_level_stable :
    (r : ReadPosture) (o : Option String)
    → unmask_level r (some (access_word (unmask_level r o))) ≡ unmask_level r o
unfolding unmask_level
unmask_level_stable ReadPosture.mask o = access_level-access_word (access_level o)
unmask_level_stable ReadPosture.allow o = refl
unmask_level_stable ReadPosture.deny o = refl

unmask_level-deny : (r : ReadPosture) → unmask_level r (some "deny") ≡ Access.deny
unfolding unmask_level access_level
unmask_level-deny ReadPosture.mask = refl
unmask_level-deny ReadPosture.allow = refl
unmask_level-deny ReadPosture.deny = refl

-- Reading a posture that was stored normalised gives the posture that was stored.
pub normalize-stored_posture :
    (p : PostureInput)
    → normalize_posture (stored_posture (normalize_posture p)) ≡ normalize_posture p
unfolding normalize_posture stored_posture
normalize-stored_posture (word s) =
    simp (read_level-read_word, access_level-access_word, unmask_level-deny)
normalize-stored_posture other =
    simp (read_level-read_word, access_level-access_word, unmask_level-deny)
normalize-stored_posture (axes r w u) =
    simp (read_level-read_word, access_level-access_word, unmask_level_stable)
