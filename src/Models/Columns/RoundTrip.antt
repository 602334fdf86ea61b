-- ===== src/Models/Columns/RoundTrip.antt =====
-- Reading back the columns that were written.
use downloader.Base.{ℕ, ◌≡◌, some, arith}
use downloader.Models.{Contract, Row, Codec, IsInverse}
use downloader.Models.Columns.{found, decode, encode}

-- The columns of the unique index.
pub encode-index :
    (k : Codec) (id created : ℕ) (c : Contract) (r : Row)
    → encode k id created c ≡ some r
    → (r.id ≡ id)
      × (r.created_at ≡ created)
      × (r.network_id ≡ k.uint64 c.network_id)
      × (r.block_number ≡ k.uint64 c.block_number)
      × (r.address ≡ k.address_hex c.address)
unfolding encode
encode-index k id created c r e = ground arith

-- The contract as the table keeps it: numbered, dated, its two numbers cut to 64 bits.
abbrev pub stored : Codec → ℕ → ℕ → Contract → Contract
stored k id created c = record c {
  id = id;
  created_at = created;
  network_id = k.uint64 c.network_id;
  block_number = k.uint64 c.block_number;
}

-- Where the codec reads back what it writes of the contract, the row that a contract is encoded to
-- decodes to that contract, under the row's id and creation time, its numbers cut to 64 bits.
pub decode-encode :
    (k : Codec) (c : Contract) (i : IsInverse k c) (id created : ℕ) (r : Row)
    → encode k id created c ≡ some r
    → decode k r ≡ found (stored k id created c)
unfolding decode encode
decode-encode k c i id created r e = ground (
  arith, i.failed_written, i.standards_written, i.completed_written, i.implementations_written,
  i.failed_back, i.standards_back, i.completed_back, i.implementations_back, i.block_hash_back,
  i.transaction_hash_back, i.address_back, i.execution_bytecode_back, i.bytecode_back,
)

pub id-decode : (k : Codec) (r : Row) (c : Contract) → decode k r ≡ found c → c.id ≡ r.id
unfolding decode
id-decode k r c e = ground arith
