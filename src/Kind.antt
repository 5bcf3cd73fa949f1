-- ===== src/Kind.antt =====
-- include/api/Kind.h, include/impl/KindImpl.h, src/impl/KindImpl.cpp and include/impl/SameType.h.
use librocks_dll.Prelude.{ℕ, Bool, true, false, Option, none, some, [], ◌≡◌, ap}
use librocks_dll.Prelude.Tests.{is_some}
use librocks_dll.Prelude.Text.{Text, text_eq, text_eq→eq, text_lt, c_str}
use librocks_dll.Engine.{Handle}

pub record KindImpl : Type 0 where
  pub name_ : Text
  pub handle_ : Option Handle

-- KindImpl(), and KindImpl(name, handle), which reads `name` up to its NUL
abbrev pub empty_kind_impl : KindImpl
empty_kind_impl = record { name_ = c_str []; handle_ = none }

unfoldable pub new_kind_impl : Text → Option Handle → KindImpl
new_kind_impl name handle = record { name_ = c_str name; handle_ = handle }

-- A Kind behind a reference: the library's own class, or another class with what its virtual
-- `name` and `isValid` return.
pub data Kind : Type 0 where
  kind_impl : KindImpl → Kind
  other_kind : Text → Bool → Kind

abbrev pub name : Kind → Text
name (kind_impl k) = c_str k.name_
name (other_kind n v) = n

abbrev pub is_valid : Kind → Bool
is_valid (kind_impl k) = is_some k.handle_
is_valid (other_kind n v) = v

-- KindImpl::operator<
unfoldable pub kind_lt : KindImpl → Kind → Bool
kind_lt k other = text_lt k.name_ (name other)

-- SameType::isSameType of a KindImpl; `none` is the null pointer
abbrev pub is_same_type : Option Kind → Bool
is_same_type none = false
is_same_type (some (kind_impl k)) = true
is_same_type (some (other_kind n v)) = false

unfoldable pub equals : KindImpl → Option Kind → Bool
equals k none = false
equals k (some (other_kind n v)) = false
equals k (some (kind_impl j)) = text_eq k.name_ j.name_

-- KindImpl::closeHandle; the handle's deletion is the engine's
abbrev pub without_handle : KindImpl → KindImpl
without_handle k = record k { handle_ = none }

-- KindImpl::operator==, of a reference
unfoldable kind_eq : KindImpl → Kind → Bool
unfolding equals
kind_eq k other = equals k (some other)

-- KindImpl::hash, with std::hash<std::string> as the argument
abbrev hash : (Text → ℕ) → KindImpl → ℕ
hash string_hash k = string_hash k.name_

abbrev to_string : KindImpl → Text
to_string k = name (kind_impl k)

abbrev handle : KindImpl → Option Handle
handle k = k.handle_

-- Kinds that are equal have one hash.
kind_eq-hash :
    (string_hash : Text → ℕ) (k j : KindImpl)
    → kind_eq k (kind_impl j) ≡ true
    → hash string_hash k ≡ hash string_hash j
unfolding kind_eq equals
kind_eq-hash string_hash k j e = ap string_hash (text_eq→eq k.name_ j.name_ e)
