-- ===== src/Codec/Registry.antt =====
-- src/audio_codec.cpp and `AudioCodec::Register`: the codecs by name. `C` is what a maker gives.
use wifi_audio.Common.{
  ◌≡◌, refl, ◌⊎◌, inl, inr, true, false, not, List, [], ◌∷◌, ◌++◌, ap, sym, Option, none, some,
  Bytes, codes, if◌then◌else◌, Bool-cases,
}
use mathlib.Core.Path.{subst}
use wifi_audio.Codec.Storage.{Storage}
use wifi_audio.Libc.Strings.{str_eq}

pub record Register (C : Type 0) : Type 0 where
  pub name : Bytes
  pub maker : C

abbrev pub or_stored : Storage → Option Bytes → Option Bytes
or_stored storage none = storage.get (codes "app") (codes "codec") 64
or_stored storage (some name) = some name

module _ {C : Type 0} where
  -- The constructor of `Register`; the list of codecs starts with the latest.
  unfoldable pub register : Bytes → C → List (Register C) → List (Register C)
  register name fn codecs = record { name = name; maker = fn } ∷ codecs

  unfoldable pub find : Bytes → List (Register C) → Option C
  find name [] = none
  find name (r ∷ rs) = if not (str_eq name r.name) then find name rs else some r.maker

  -- None for the null pointer.
  unfoldable pub make_codec : Storage → Option Bytes → List (Register C) → Option C
  unfolding find
  make_codec storage name codecs = elim (or_stored storage name) [
    | none ↦ none
    | some n ↦ find n codecs
  ]

  -- The list after a number of constructors, the latest first.
  unfoldable pub registered : List (Register C) → List (Register C)
  unfolding register
  registered [] = []
  registered (r ∷ earlier) = register r.name r.maker (registered earlier)

  registered_all : (rs : List (Register C)) → registered rs ≡ rs
  unfolding registered register
  registered_all [] = refl
  registered_all (r ∷ rs) = ap (λ cs. r ∷ cs) (registered_all rs)

  abbrev pub NoneNamed : Bytes → List (Register C) → Type 0
  NoneNamed name [] = Unit {0}
  NoneNamed name (r ∷ rs) = (str_eq name r.name ≡ false) × NoneNamed name rs

  -- The latest codec of a name.
  pub record Latest (name : Bytes) (codecs : List (Register C)) (found : Option C) : Type 0 where
    pub before : List (Register C)
    pub codec : Register C
    pub after : List (Register C)
    pub is : codecs ≡ before ++ codec ∷ after
    pub others : NoneNamed name before
    pub named : str_eq name codec.name ≡ true
    pub made : found ≡ some codec.maker

  later-Latest :
      (name : Bytes) (r : Register C) (rs : List (Register C)) (found : Option C)
      → str_eq name r.name ≡ false
      → Latest name rs found
      → Latest name (r ∷ rs) found
  later-Latest name r rs found other l = record {
    before = r ∷ l.before;
    codec = l.codec;
    after = l.after;
    is = ap (λ cs. r ∷ cs) l.is;
    others = (other, l.others);
    named = l.named;
    made = l.made;
  }

  find-later :
      (name : Bytes) (r : Register C) (rs : List (Register C))
      → str_eq name r.name ≡ false
      → find name (r ∷ rs) ≡ find name rs
  unfolding find
  find-later name r rs other = rw (other, find) refl

  listed-Latest :
      (storage : Storage) (name : Bytes) (codecs : List (Register C))
      → ((make_codec storage (some name) codecs ≡ none) × NoneNamed name codecs)
        ⊎ Latest name codecs (make_codec storage (some name) codecs)
  unfolding make_codec
  listed-Latest storage name [] = inl (refl, tt)
  listed-Latest storage name (r ∷ rs) = elim (Bool-cases (str_eq name r.name)) [
    | inl same ↦ inr (record {
      before = [];
      codec = r;
      after = rs;
      is = refl;
      others = tt;
      named = same;
      made = rw (same, make_codec) refl;
    })
    | inr other ↦
        subst (λ f. ((f ≡ none) × NoneNamed name (r ∷ rs)) ⊎ Latest name (r ∷ rs) f)
          (sym (find-later name r rs other)) (later other (listed-Latest storage name rs))
  ]
    where
      later :
          str_eq name r.name ≡ false
          → ((find name rs ≡ none) × NoneNamed name rs) ⊎ Latest name rs (find name rs)
          → ((find name rs ≡ none) × NoneNamed name (r ∷ rs)) ⊎ Latest name (r ∷ rs) (find name rs)
      later other (inl (e, all)) = inl (e, (other, all))
      later other (inr l) = inr (later-Latest name r rs (find name rs) other l)

  -- After any registrations: a name that is asked for gives the maker that was registered last under
  -- it, or none just if none was registered under that name.
  pub make_codec-Latest :
      (storage : Storage) (name : Bytes) (made : List (Register C))
      → ((make_codec storage (some name) (registered made) ≡ none) × NoneNamed name made)
        ⊎ Latest name made (make_codec storage (some name) (registered made))
  make_codec-Latest storage name made =
      subst
        (λ cs.
          ((make_codec storage (some name) cs ≡ none) × NoneNamed name made)
          ⊎ Latest name made (make_codec storage (some name) cs))
        (sym (registered_all made)) (listed-Latest storage name made)
