-- ===== src/Lib.antt =====
-- A verification library for swtpm, a software TPM: how it keeps the state of a TPM, and how it is
-- controlled.
--
-- The parts, from the storage up, and how they work together:
--
--   src/swtpm/swtpm_nvstore_linear.c packs the files of a TPM into one address space behind a
--   header. It calls a backing store (`struct nvram_linear_store_ops`) to grow, shrink and flush
--   the space. src/swtpm/tlv.c writes and searches streams of tag, length and value.
--   src/swtpm/swtpm_aes.c pads and encrypts. src/swtpm/swtpm_nvstore.c puts these together: it
--   makes a file or a migration blob of a state (encryption with an HMAC, a TLV stream, perhaps
--   a second layer of both with the migration key, a header), hands files to a backend such as
--   the linear one, and takes them back.
--
--   src/swtpm/tpmlib.c starts and stops libtpms and answers some requests itself.
--   src/swtpm/ctrlchannel.c serves a client that starts, stops and migrates the TPM; it calls
--   tpmlib.c, swtpm_nvstore.c and the lock functions of src/swtpm/mainloop.c.
--
-- Which file models which part:
--
--   Common and its children: lists, words, memory, tests, TPM_RESULT (Common.Result: Rc for a
--   code alone, Result for a code with outputs).
--   Tlv: tlv_data_append is `append`, tlv_data_find_tag is `find_tag`.
--   Linear: the types and loops of the linear backend. Linear.Ops: one function for each
--   operation, GetFileNr to CheckState. `State` is the static `state`; the header, which the code
--   keeps at the start of the memory, stands decoded beside it. The proofs are in
--   Packed (the layout), Shift and Compact (RemoveFile), Round, Alloc and Room (space), Resize
--   and Flush (the store's calls), Contents (what a file holds), Refine (the operations),
--   Progress and Total (when they succeed). Linear.FileStore: SWTPM_NVRAM_LinearFile_Flush of
--   src/swtpm/swtpm_nvstore_linear_file.c.
--   Crypto: OpenSSL and malloc as parameters, with their documented behaviour as CryptoLaws.
--   Aes: SWTPM_SymmetricKeyData_Encrypt and _Decrypt.
--   Nvstore: blob header and keys. Nvstore.Crypt: vector, HMAC, EncryptData, DecryptData,
--   GetPlainData, GetDecryptedData. Nvstore.Blob: LoadData, StoreData, GetStateBlob,
--   SetStateBlob. The proofs are in Header, Entries, RoundTrip, Layers, Transfer, Storage, Integrity and
--   OverLinear, where the linear backend meets what LoadData and StoreData rely on.
--   Mainloop: mainloop_ensure_locked_storage and mainloop_unlock_nvram, with SWTPM_NVRAM_Lock_Storage
--   and SWTPM_NVRAM_Unlock; Mainloop.Locked: what storage_locked says. Mainloop.Request: what mainLoop
--   does with a request of the data client; Mainloop.Served: prefixed requests; Mainloop.Handled: who
--   answers.
--   Host: the statics, and SWTPM_NVRAM_Init, _Shutdown, _DeleteName, _RestoreBackup and
--   _Store_Volatile. `Host` is the process but for the channel's own state; `Libtpms` the functions
--   of libtpms.
--   Tpmlib: requests, responses, headers and localities of src/swtpm/tpmlib.c.
--   Tpmlib.Openssl: tpmlib_maybe_configure_openssl. Tpmlib.Start: tpmlib_start. Tpmlib.Shutdown:
--   tpmlib_maybe_send_tpm2_shutdown. The proofs are there and in Locality, Headers and Running.
--   Ctrl: the commands and the state of src/swtpm/ctrlchannel.c (`CtrlState` holds what
--   ctrlchannel_process_fd can change). Ctrl.Recv: ctrlchannel_recv_cmd. Ctrl.Blobs:
--   ctrlchannel_return_state, ctrlchannel_receive_state and the hash loop. Ctrl.Process: a function for
--   each command and ctrlchannel_process_fd. The proofs are in Arriving, Received, Refusal, Streams, Migration,
--   Sound, Commands and Sessions.
--   Dir: paths and types of src/swtpm/swtpm_nvstore_dir.c, with SWTPM_NVRAM_GetFilenameForName. Dir.FileIo: file_write,
--   file_read and write_full of src/swtpm/utils.c. Dir.Ops: the operations; Dir.Restore: the two restores; Dir.Lock: the lock.
--   Dir.Laws: what the calls of the system do to the contents of files. The proofs are in Written, Stored,
--   Loaded, Paths, Renames, Exchange and Backup.
--   Setup: src/swtpm_setup/swtpm.c, which drives a swtpm: `transfer` and fixed requests (a
--   Link is the sockets' state with the buffers that were sent). Setup.Nvram: certificates in NVRAM.
--   Setup.Banks: PCR banks. Setup.Primary: TPM2_CreatePrimary and the RSA endorsement key, with
--   print_as_hex of src/utils/swtpm_utils.c. Setup.Spk: the storage primary key. Setup.NvSpec: the NV commands as the TPM 2.0 specification reads them,
--   apart from the code. The proofs are in Parsed, Written, Willing, Available, Names, Selecting, Chosen and Created.
--   The Tests modules hold concrete runs, and the Samples modules their data.
--
-- Conventions. A byte is a number. Words keep their wrap-around (% 2 ^ 32); pointers to bytes are
-- lists; a NULL pointer is `none` or, for TLV buffers, the empty list. Three loops have fuel: that
-- of tlv_data_find_tag, where each round passes at least a header and the fuel is one more than
-- the buffer's bytes, that of write_full and that of swtpm_tpm2_nv_write, where each round writes at least
-- a byte and the fuel is the bytes. The loops over the header's 15 entries recurse on the count. Writing behind
-- the end of a buffer, which the code would do for lengths that wrap, is outside the theorems:
-- they bound the lengths.
--
-- Parameters: the backing store of the linear backend (StoreOps, with StoreLaws: a resize keeps
-- the bytes, a flush changes no mapping), a backend's lock (LockOps, with LockLaws: a lock that
-- succeeds is held), the ciphers, HMAC, SHA256 and RAND_bytes, whether
-- malloc gives memory, TPMLIB_SetState, and the backend of LoadData and StoreData. libtpms is a
-- parameter over the whole process, since it calls back (Libtpms, with RunLaws and CallLaws: MainInit
-- and Terminate alone start and stop a TPM); so are what OpenSSL and libtpms' JSON tell of algorithms
-- (Openssl), the two tables of backend functions, the numbers of libtpms' errors, and what each read,
-- poll and write on the channel gives. The calls of the system under the directory backend are FileOps, with
-- FileLaws: each does to the contents of files what its manual page says, nobody else changes them, and only
-- open(), write() and unlink() may have changed their own file where they fail. The sockets of swtpm_setup are
-- a parameter with no laws; Willing says that all commands are taken and answered with success.
--
-- The response buffer of a request has the bytes that libtpms writes and no more, so that a later error
-- response may allocate one where the code finds room in the old. A call through g_nvram_backend_ops with no backend, which would end the process, gives TPM_FAIL.
-- tpmlib_process is that of a build with the vTPM proxy. A failed CMD_SET_DATAFD is one without a valid
-- descriptor in its message; which control messages carry one is not modelled.
--
-- The memory of the linear backend has no end in the model, where the code's memcpy and memmove would leave the
-- mapping in a state with an invalid header or with data above 2 ^ 31 bytes; the theorems ask for a valid
-- state and bounded data. The mask of activated banks, 64 bits in the code, is a list of indices.
--
-- Not modelled: polling, accepting and the end of the loop of src/swtpm/mainloop.c; what ctrlchannel.c does to set up and close
-- its sockets; PrintJson; Prepare, Lock, Unlock and Cleanup of the linear
-- backend; the rest of its file store; umask, EINTR and modes of new files in the directory backend, and
-- what a crash between two of its calls leaves; the other primary keys, the order of steps and TPM 1.2 in swtpm_setup; sockets,
-- options, logging and the other programs (certificates, ioctl client), which are input and
-- output or clients.
pub mod Common
pub mod Tlv
pub mod Tpmlib
pub mod Linear
pub mod Crypto
pub mod Aes
pub mod Nvstore
pub mod Mainloop
pub mod Host
pub mod Ctrl
pub mod Dir
pub mod Setup
