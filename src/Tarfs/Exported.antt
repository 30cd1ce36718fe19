-- ===== src/Tarfs/Exported.antt =====
-- What `ExportBlockData` of pkg/tarfs/tarfs.go runs and reports, for each setting of the flags.
