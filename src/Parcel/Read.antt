-- ===== src/Parcel/Read.antt =====
-- `parcel_read_uchar` where a byte stands, and past the last one.
use fbbs.Common.{
  ℕ, ◌+◌, ◌^◌, ◌≤◌, ◌<◌, ◌≡◌, none, some, List, arith, get_elem?, length, get_elem?-ge,
}
use fbbs.Common.Run.{ok, fault, bad_access}
use fbbs.Parcel.{Parcel, byte_at, read_uchar, u64}

pub read_uchar-byte :
    (p : Parcel) (b : List ℕ) (x : ℕ)
    → p.ptr ≡ some b
    → get_elem? b p.size ≡ some x
    → p.size ≤ p.capacity
    → p.capacity + 1 < 2 ^ 64
    → read_uchar p ≡ ok (x, record p { size = p.size + 1 })
unfolding read_uchar byte_at
read_uchar-byte p b x e g h top =
    let whole : u64 (p.size + 1) ≡ p.size + 1 = omega arith in ground arith

-- Where every byte has been read, `parcel_read_uchar` reads the byte behind the buffer.
pub read_uchar_past_end :
    (p : Parcel) (b : List ℕ)
    → p.ptr ≡ some b
    → length b ≡ p.capacity
    → p.size ≡ p.capacity
    → read_uchar p ≡ fault bad_access
unfolding read_uchar byte_at
read_uchar_past_end p b e size end =
    let outside : get_elem? b p.size ≡ none = get_elem?-ge b p.size (omega arith) in ground arith
