-- ===== src/Lib.antt =====
-- A library on the pseudorandom correlation generator in this repository: arithmetic on 128-bit
-- blocks as polynomials over F4, the transform of order three on arrays of 3^k blocks, the field of
-- the integers modulo 2^127 - 1, and the silent VOLE that is built from them.
--
-- F4 models F4.h: `interleave`, `odd_bit_extraction`, `even_bit_extraction`, `F4_reduce` and `F4_mul`
-- (with underscores and small letters: `f4_reduce`, `f4_mul`). A block is a sequence of bits, lowest
-- first, of which the operations read the first 128. F4/Poly says which polynomial over F4 a block
-- stands for, F4/Congruence what it means to be equal up to a multiple of the modulus, and F4/Ring
-- makes a ring of the blocks, some of which have no inverse (F4/Units). F4/Constant models `mulConst`
-- of `CoeffCtxGF128_F4` in Coeff128.h. Word models the operations of the language and of the x86
-- intrinsics on words and blocks (`_pext_u64`, `_pdep_u64`, `_mm_clmulepi64_si128`, shifts, masks).
--
-- Fft models `inv_foleageFft` of F4.h on a store of blocks: `inv_butterfly` is the body of its loop
-- with the writes in their order, `inv_loop` the loop, by structural recursion on the rounds that are
-- left, and `inv_foleage_fft` the recursion on the number of variables; a span is its first address.
-- The forward transform `foleageFft` belongs to libOTe: it is a parameter, `IsForwardFft` states what
-- is asked of it, and Tests/Fft has one that meets this. Algebra has the algebra: rings of
-- characteristic two, a solver for their equations, polynomials, and the transform of k-fold arrays.
--
-- Prime models the scalar operations of `CoeffCtxIntegerPrime_128` in Coeff128.h on natural
-- numbers, with the wrap-around of 128 and 256 bits written out, its vector and matrix operations
-- with their loops (Prime/Vector, Prime/Matrix), for results that share no memory with the
-- operands, and `str` (Prime/Text), whose loop tests the sign of the converted number (`is_positive`)
-- and is on fuel 39: a positive `__int128_t` has at most 39 digits. Prime/Memory models `binaryDecomposition`, `serialize` and `deserialize` on buffers of
-- bytes, and Prime/Bytes `copy`, `fromBlock`, `zero` and `one` (`copy_range`, `from_block`,
-- `zero_range`, `one_range`) on memory as bytes. Context models the arrays of `GF128Array`.
--
-- Vole models SilentWalshVoleReceiver.h and SilentWalshVoleSender.h for blocks with the context
-- `CoeffCtxGF128_F4` of Coeff128.h, whose product is `F4_mul` and whose sum and difference are the
-- library's xor: the configuration and the base OTs (`configure`, `receiver_set_base` and
-- `sender_set_base` for the two `setSilentBaseOts`), the noisy coordinates (`noise_loop`), the
-- sender's negated shares (`negated`), the choice of the length (`round_log3`, on fuel: the length
-- itself is enough, since n < 3^n) and the encoding (`encode`), whose length goes through an `int`
-- (`int_size`). An action that throws leaves the
-- state that it had changed until then. Vole/Receiver and Vole/Sender model the protocols of the two
-- parties, from `silentReceive` and `silentSend` down to the base OTs, as actions on a record of the
-- party, the generator and the channel; a round of `while` that draws a nonzero block is on fuel
-- (the last draw is then taken as it is), and Vole/Drawing says how much is enough. Vole/CheckRt
-- models `checkRT`, whose sorted indices are a parameter. What a party asks of the library, and
-- through it of the other party, is a record of functions (`ReceiverCalls`, `SenderCalls`), each of
-- which may throw. Vole/Rules has rules for actions that end normally. The PPRF, the noisy VOLE and
-- the base OTs are the library's: parameters, with what their comments promise as hypotheses
-- (`IsNoisyVole`, `IsExpansion`, and `IsReliable` on when they do not throw).
-- Vole/Malicious models the check against a malicious party, which is there for the context
-- `CoeffCtxGF128`: `ferretMalCheck` of both parties (`ferret_mal_check`) and what
-- `sampleBaseVoleVals` adds to mBaseC for it (`mal_base_c`); the library's `gf128Mul`, `gf128Pow` and
-- hash are a record. Vole/BaseOts, Vole/Receiving and Vole/Programming say what a run
-- of a party does, from a party that is not configured to one that is not configured again, and
-- Vole/Connected joins the two parties.
--
-- `VOLE_QASD` of test.h is modelled whole: Vole/Padding has its length (`padded`, with the
-- wrap-around of `u64`), Vole/Qasd the function (`vole_qasd_run`) with its two threads, each of
-- which runs the protocol of its party twice, and Vole/Sharing the combination of the two VOLEs with
-- the final check (`vole_qasd`); Vole/QasdCorrect puts the parts together. The threads share one
-- generator without a lock; in the model each goes on with a copy. Vole/Lpn models `Vole_LPN`.
--
-- Ole models OLE.h for the same blocks and context: `generate_additive_sharing` (Ole/Defs), `dpf`
-- (Ole/Dpf), the drawing of the polynomials (Ole/Sampling) and the two overloads of
-- `Extension_Field_OLE`, `extension_field_ole` (Ole/Run) and `extension_field_ole_two`
-- (Ole/TwoTerms), with their final checks. The two parties' threads run one after the other. The two
-- expansions in `dpf` draw from one generator by reference and without a lock: together they are one
-- parameter, which takes the generator, and what is proved holds whatever they draw. A point is the number that its 32 ternary digits stand for.
-- The addition of `F3x32`, the library's `TernaryDpf` with both parties' messages, and the
-- generators are parameters, with what the library documents as hypotheses (`IsTernary` in
-- Fft/Ternary, `IsDpf` in Ole/Products); Tests/OleRun has ones that meet them. Fft/Spike and
-- Fft/Sparse relate the transform to the product of sparse arrays, Algebra/Sum and
-- Algebra/Cube/Character have the algebra for this, and Loop the rules for counted loops.
--
-- Encode models encoders of test.h: `qa_encode` and `qa_encode_half` (the two
-- `QA_encode_test_PCS`), `qa_syndrome` (`QA_encode_test`) and `test_inverse_fft` in
-- Encode/QuasiAbelian, `ea_encode` (`EA_encode_test_PCS`) in Encode/Accumulate and `raa_encode`
-- (`RAA_encode_test_PCS`) in Encode/Permute, the last two for any context whose coefficients form a
-- ring of characteristic two. What is drawn at random is an argument. `EA_encode_test` (in
-- Encode/EaSyndrome) and `EC_encode_test` (in Encode/EcSyndrome) set the library's codes beside
-- computations of their own: the codes are records of functions (`EaCode`, `ExConvCode`). The
-- functions' own rounds of accumulation are in Encode/Stepping, the pass with its buffer of
-- coefficients in Encode/Coefficients, and the expansion of eight rows at a time in Encode/Drawing;
-- Encode/Places, Encode/Slots and Encode/EcExpansion say which entry each step reads or writes, and
-- Encode/EcCorrect what is asked of the library (`IsDescribed`).
--
-- Command models `main` of main.cpp: for its arguments, the list of the calls that it makes, with the
-- conversions between `int` and `u64`; `atoi`, `ipow` and `log2ceil` are parameters.
--
-- IntLoop has what an `int` does to these programs: a loop of an `int` against a longer bound, and a
-- product of two of them. Where the theorems need that it does not overflow, they say so.
--
-- Not modelled: the network; the malicious mode inside the protocol of the silent VOLE (for blocks
-- with `CoeffCtxGF128_F4` it throws, and is modelled so); the silent VOLE for the prime field; the
-- products of matrices in Coeff128.h, which cannot be instantiated as they are written; the printing
-- of `GF128Array`; and times, bytes and texts that are printed. libOTe/ is a copy of another
-- project's library.
pub mod Common
pub mod Loop
pub mod IntLoop
pub mod Algebra
pub mod Word
pub mod F4
pub mod Fft
pub mod Prime
pub mod Vole
pub mod Encode
pub mod Context
pub mod Command
pub mod Ole
pub mod Tests
